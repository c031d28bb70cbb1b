-- ===== src/Protocol/Framing.antt =====
-- The bytes that a client sends: frames, one behind the other.
use pulsar_server_framework.Prelude.{
  ℕ, ◌+◌, ◌≤◌, ◌≡◌, refl, ap, ◌∙◌, List, [], ◌∷◌, ◌++◌, length, length-append, arith,
}
use pulsar_server_framework.Protocol.Constants.{header_size}
use pulsar_server_framework.Protocol.Frame.{framed}

-- What is on the wire for these bodies.
abbrev pub frames : ℕ → List (List ℕ) → List ℕ
frames version [] = []
frames version (b ∷ bs) = framed version (length b) (b ++ frames version bs)

pub append_assoc : (xs ys zs : List ℕ) → (xs ++ ys) ++ zs ≡ xs ++ (ys ++ zs)
append_assoc [] ys zs = refl
append_assoc (x ∷ xs) ys zs = ap (◌∷◌ x) (append_assoc xs ys zs)

-- A list that reaches past the first of two parts begins with that part.
pub reaches :
    (xs ys hs zs : List ℕ)
    → xs ++ ys ≡ hs ++ zs
    → length hs ≤ length xs
    → (ts : List ℕ) × (xs ≡ hs ++ ts) × (ts ++ ys ≡ zs)
reaches xs ys [] zs e h = (xs, refl, e)
reaches [] ys (a ∷ hs) zs e h = absurd (omega arith)
reaches (x ∷ xs) ys (a ∷ hs) zs e h =
    let (ts, f, g) = reaches xs ys hs zs (cc) (omega arith) in (ts, cc, g)

pub length_zero : (xs : List ℕ) → length xs ≡ 0 → xs ≡ []
length_zero [] h = refl
length_zero (x ∷ xs) h = absurd (omega arith)

-- What has been read of a frame, once its header is there.
pub behind_header :
    (version : ℕ) (b rest xs ys : List ℕ)
    → xs ++ ys ≡ framed version (length b) (b ++ rest)
    → header_size ≤ length xs
    → (ts : List ℕ) × (xs ≡ framed version (length b) ts) × (ts ++ ys ≡ b ++ rest)
behind_header version b rest xs ys e h =
    reaches xs ys (framed version (length b) []) (b ++ rest) e h

-- Once all of a frame has been read, and no more, the frame's body stands behind its header.
pub whole_frame :
    (version : ℕ) (b rest xs ys : List ℕ)
    → xs ++ ys ≡ framed version (length b) (b ++ rest)
    → length xs ≡ length b + header_size
    → (xs ≡ framed version (length b) b) × (ys ≡ rest)
whole_frame version b rest xs ys e h =
    let (ts, f, g) = reaches xs ys (framed version (length b) b) rest e (omega arith) in
    let none_left : ts ≡ [] =
      length_zero ts (omega (arith, ap length f, length-append (framed version (length b) b) ts)) in
    (f ∙ rw none_left (append_nil (framed version (length b) b)), rw none_left at g)
  where
    append_nil : (us : List ℕ) → us ++ [] ≡ us
    append_nil [] = refl
    append_nil (u ∷ us) = ap (◌∷◌ u) (append_nil us)
