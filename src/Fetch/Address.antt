-- ===== src/Fetch/Address.antt =====
-- `is_public_address` of crates/llmbase-core/src/fetch.rs.
use Prim.Native.Nat.{bit_and}
use llmbase.Prelude.{ltb, leb, within, ◌==◌, ℕ, Bool, not, ◌&&◌, ◌||◌, nat_PartialEq}

-- The octets of a v4 address, the segments of a v6 address.
pub data Address : Type 0 where
  v4 : ℕ → ℕ → ℕ → ℕ → Address
  v6 : ℕ → ℕ → ℕ → ℕ → ℕ → ℕ → ℕ → ℕ → Address

abbrev pub is_special_v4 : ℕ → ℕ → ℕ → Bool
is_special_v4 a b c =
    a == 0
    || a == 10
    || a == 127
    || leb 224 a
    || (a == 100 && within 64 127 b)
    || (a == 169 && b == 254)
    || (a == 172 && within 16 31 b)
    || (a == 192 && b == 0 && (c == 0 || c == 2))
    || (a == 192 && b == 88 && c == 99)
    || (a == 192 && b == 168)
    || (a == 198 && (b == 18 || b == 19))
    || (a == 198 && b == 51 && c == 100)
    || (a == 203 && b == 0 && c == 113)

unfoldable pub is_public_address : Address → Bool
is_public_address (v4 a b c d) = not (is_special_v4 a b c)
is_public_address (v6 s0 s1 s2 s3 s4 s5 s6 s7) =
    bit_and s0 0xE000 == 0x2000
    && not (s0 == 0x2001 && (ltb s1 0x200 || s1 == 0xDB8))
    && not (s0 == 0x2002)
    && not (s0 == 0x3FFF && ltb s1 0x1000)
