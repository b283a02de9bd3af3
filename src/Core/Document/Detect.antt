-- ===== src/Core/Document/Detect.antt =====
-- `DocumentFormat::detect` looks at the first hundred bytes only.
use rip_server.Common.{ℕ, zero, suc, ◌≤◌, ◌≡◌, refl, [], ◌∷◌, take, length, arith}
use rip_server.Common.Bytes.{Bytes, codes, starts_with}
use rip_server.Core.Document.{detect}

starts_with-take :
    (n : ℕ) (p bs : Bytes) → length p ≤ n → starts_with p (take n bs) ≡ starts_with p bs
unfolding starts_with
starts_with-take n [] bs h = refl
starts_with-take zero (x ∷ p) bs h = elim h [ ]
starts_with-take (suc n) (x ∷ p) [] h = refl
starts_with-take (suc n) (x ∷ p) (b ∷ bs) h = ground (arith, starts_with-take n p bs)

take-take : (n : ℕ) (bs : Bytes) → take n (take n bs) ≡ take n bs
take-take zero bs = refl
take-take (suc n) [] = refl
take-take (suc n) (b ∷ bs) = ground (arith, take-take n bs)

-- The format of a document is found in its first hundred bytes: no later byte changes it.
pub detect-take : (input : Bytes) → detect (take 100 input) ≡ detect input
unfolding detect
detect-take input = ground (
  arith,
  take-take 100 input,
  starts_with-take 100 (codes "%PDF-") input,
  starts_with-take 100 (codes "%!PS-Adobe-") input,
  starts_with-take 100 (codes "%!") input,
)
