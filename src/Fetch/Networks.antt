-- ===== src/Fetch/Networks.antt =====
-- The address policy of crates/llmbase-core/src/fetch.rs as a list of networks.
use llmbase.Prelude.{
  ltb, leb, nat_eqb, within, any, ◌==◌, ℕ, ◌+◌, ◌-◌, ◌*◌, ◌/◌, ◌^◌, ◌<◌, ◌≡◌, ap, Bool, true, false,
  not, ◌&&◌, ◌||◌, List, [], ◌∷◌, arith, nat_PartialEq,
}
use llmbase.Fetch.Address.{v4, is_public_address}

-- A network of version 4: its octets and the length of its prefix.
abbrev pub Network : Type 0
Network = List ℕ × ℕ

abbrev pub number : List ℕ → ℕ → ℕ
number [] n = n
number (octet ∷ octets) n = number octets (n * 256 + octet)

abbrev pub in_network : ℕ → Network → Bool
in_network address (octets, prefix) =
    nat_eqb (address / 2 ^ (32 - prefix)) (number octets 0 / 2 ^ (32 - prefix))

-- The special-use networks in CIDR notation.
abbrev pub special_networks : List Network
special_networks =
    (0 ∷ 0 ∷ 0 ∷ 0 ∷ [], 8)
    ∷ (10 ∷ 0 ∷ 0 ∷ 0 ∷ [], 8)
    ∷ (127 ∷ 0 ∷ 0 ∷ 0 ∷ [], 8)
    ∷ (224 ∷ 0 ∷ 0 ∷ 0 ∷ [], 3)
    ∷ (100 ∷ 64 ∷ 0 ∷ 0 ∷ [], 10)
    ∷ (169 ∷ 254 ∷ 0 ∷ 0 ∷ [], 16)
    ∷ (172 ∷ 16 ∷ 0 ∷ 0 ∷ [], 12)
    ∷ (192 ∷ 0 ∷ 0 ∷ 0 ∷ [], 24)
    ∷ (192 ∷ 0 ∷ 2 ∷ 0 ∷ [], 24)
    ∷ (192 ∷ 88 ∷ 99 ∷ 0 ∷ [], 24)
    ∷ (192 ∷ 168 ∷ 0 ∷ 0 ∷ [], 16)
    ∷ (198 ∷ 18 ∷ 0 ∷ 0 ∷ [], 15)
    ∷ (198 ∷ 51 ∷ 100 ∷ 0 ∷ [], 24)
    ∷ (203 ∷ 0 ∷ 113 ∷ 0 ∷ [], 24)
    ∷ []

-- The octets of an address, as a number and as a name of their bounds.
abbrev pub value : ℕ → ℕ → ℕ → ℕ → ℕ
value a b c d = number (a ∷ b ∷ c ∷ d ∷ []) 0

module _ (a b c d : ℕ) (hb : b < 256) (hc : c < 256) (hd : d < 256) where
  slash3 : nat_eqb (value a b c d / 536870912) 7 ≡ (leb 224 a && ltb a 256)
  slash3 = ground arith

  slash8 : (k : ℕ) → nat_eqb (value a b c d / 16777216) k ≡ nat_eqb a k
  slash8 k = ground arith

  slash10 : nat_eqb (value a b c d / 4194304) 401 ≡ (nat_eqb a 100 && within 64 127 b)
  slash10 = ground arith

  slash12 : nat_eqb (value a b c d / 1048576) 2753 ≡ (nat_eqb a 172 && within 16 31 b)
  slash12 = ground arith

  slash15 :
      nat_eqb (value a b c d / 131072) 25353 ≡ (nat_eqb a 198 && (nat_eqb b 18 || nat_eqb b 19))
  slash15 = ground arith

  slash16 :
      (k l : ℕ)
      → l < 256
      → nat_eqb (value a b c d / 65536) (k * 256 + l) ≡ (nat_eqb a k && nat_eqb b l)
  slash16 k l hl = ground arith

  slash24 :
      (k l m : ℕ)
      → l < 256
      → m < 256
      → nat_eqb (value a b c d / 256) ((k * 256 + l) * 256 + m)
        ≡ (nat_eqb a k && nat_eqb b l && nat_eqb c m)
  slash24 k l m hl hm = ground arith

-- The tests of the code and those of the list, as far as they differ.
tidy :
    (a0 a10 a127 big octet a100 a169 a172 a192 c0 c2 a192_88 a192_168 a198 a198_51 a203 : Bool)
    → octet ≡ true
    → (a0
        || a10
        || a127
        || big
        || a100
        || a169
        || a172
        || (a192 && (c0 || c2))
        || a192_88
        || a192_168
        || a198
        || a198_51
        || a203)
      ≡ (a0
          || (a10
              || (a127
                  || ((big && octet)
                      || (a100
                          || (a169
                              || (a172
                                  || ((a192 && c0)
                                      || ((a192 && c2)
                                          || (a192_88
                                              || (a192_168
                                                  || (a198
                                                      || (a198_51 || (a203 || false))))))))))))))
tidy a0 a10 a127 big octet a100 a169 a172 a192 c0 c2 a192_88 a192_168 a198 a198_51 a203 h =
    ground arith

-- An address of version 4 is public if and only if it lies in none of the special-use networks.
pub is_public_address-networks :
    (a b c d : ℕ)
    → a < 256
    → b < 256
    → c < 256
    → d < 256
    → is_public_address (v4 a b c d) ≡ not (any (in_network (value a b c d)) special_networks)
unfolding is_public_address
is_public_address-networks a b c d ha hb hc hd =
    rw
      (
        slash8 a b c d hb hc hd 0,
        slash8 a b c d hb hc hd 10,
        slash8 a b c d hb hc hd 127,
        slash3 a b c d hb hc hd,
        slash10 a b c d hb hc hd,
        slash16 a b c d hb hc hd 169 254 (omega arith),
        slash12 a b c d hb hc hd,
        slash24 a b c d hb hc hd 192 0 0 (omega arith) (omega arith),
        slash24 a b c d hb hc hd 192 0 2 (omega arith) (omega arith),
        slash24 a b c d hb hc hd 192 88 99 (omega arith) (omega arith),
        slash16 a b c d hb hc hd 192 168 (omega arith),
        slash15 a b c d hb hc hd,
        slash24 a b c d hb hc hd 198 51 100 (omega arith) (omega arith),
        slash24 a b c d hb hc hd 203 0 113 (omega arith) (omega arith),
      )
      (ap not (
        tidy (a == 0) (a == 10) (a == 127) (leb 224 a) (ltb a 256) (a == 100 && within 64 127 b)
          (a == 169 && b == 254) (a == 172 && within 16 31 b) (a == 192 && b == 0) (c == 0) (c == 2)
          (a == 192 && b == 88 && c == 99) (a == 192 && b == 168) (a == 198 && (b == 18 || b == 19))
          (a == 198 && b == 51 && c == 100) (a == 203 && b == 0 && c == 113) octet))
  where
    octet : ltb a 256 ≡ true
    octet = ground arith
