-- ===== src/Common/Bytes/Utf8.antt =====
-- `std::str::from_utf8(…).is_ok()`: the well-formed byte sequences of UTF-8.
use Prim.Native.Nat.{ℕ, zero, suc}
use mathlib.Core.Bool.{Bool, true, false, ◌||◌}
use mathlib.Core.List.{[], ◌∷◌}
use mathlib.Core.Path.{◌≡◌, refl}
use native.Mathlib.Omega.{arith}
use rip_server.Common.Lists.{all}
use rip_server.Common.Tests.{ltb, ◌==◌, within, if◌then◌else◌}
use rip_server.Common.Bytes.{Bytes}

-- What may follow: a new character, a byte in a range with more continuation bytes behind it, or
-- nothing after a bad byte.
pub data Pending : Type 0 where
  start : Pending
  need : ℕ → ℕ → ℕ → Pending
  bad : Pending

lead : ℕ → Pending
lead b =
    if ltb b 0x80
    then start
    else if within 0xc2 0xdf b
    then need 0x80 0xbf 0
    else if b == 0xe0
    then need 0xa0 0xbf 1
    else if within 0xe1 0xec b || within 0xee 0xef b
    then need 0x80 0xbf 1
    else if b == 0xed
    then need 0x80 0x9f 1
    else if b == 0xf0
    then need 0x90 0xbf 2
    else if within 0xf1 0xf3 b
    then need 0x80 0xbf 2
    else if b == 0xf4
    then need 0x80 0x8f 2
    else bad

after : ℕ → Pending
after zero = start
after (suc k) = need 0x80 0xbf k

next : Pending → ℕ → Pending
unfolding lead after
next start b = lead b
next (need lo hi k) b = if within lo hi b then after k else bad
next bad b = bad

complete : Pending → Bool
complete start = true
complete _ = false

utf8_from : Pending → Bytes → Bool
unfolding next complete
utf8_from p [] = complete p
utf8_from p (b ∷ bs) = utf8_from (next p b) bs

unfoldable pub is_utf8 : Bytes → Bool
unfolding utf8_from
is_utf8 = utf8_from start

-- ASCII is UTF-8.
pub is_utf8_ascii :
    (bs : Bytes) (p : ℕ → Bool)
    → ((b : ℕ) → p b ≡ true → ltb b 0x80 ≡ true)
    → all p bs ≡ true
    → is_utf8 bs ≡ true
unfolding is_utf8
is_utf8_ascii [] p small h = refl
is_utf8_ascii (b ∷ bs) p small h = ground (arith, small b, is_utf8_ascii bs p small)
