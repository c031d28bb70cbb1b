-- ===== src/Protocol/Reader.antt =====
-- The reads that the parsers make through casts, `ntohs (*((USHORT*) &buffer[i]))` and the like.
-- A read past the bytes that are there is `none`.
use pulsar_server_framework.Prelude.{
  ℕ, zero, ◌+◌, ◌^◌, ◌≤◌, ◌<◌, ◌≡◌, ap, List, [], ◌∷◌, ◌++◌, Option, some, arith, ◌>>=◌, get_elem?,
  length, ◌/◌, ◌%◌, get_elem?-lt, suc,
}
use pulsar_server_framework.ByteOrder.{ByteOrder, ntohll, be16, be32, be64}
use pulsar_server_framework.ByteOrder.Order64.{ntohll_host}

module _ ⦃o : ByteOrder⦄ where
  unfoldable pub read16 : List ℕ → ℕ → Option ℕ
  read16 b i = do b0 ← get_elem? b i; b1 ← get_elem? b (i + 1); some (o.ntohs (o.word16 b0 b1))

  unfoldable pub read32 : List ℕ → ℕ → Option ℕ
  read32 b i = do
    b0 ← get_elem? b i
    b1 ← get_elem? b (i + 1)
    b2 ← get_elem? b (i + 2)
    b3 ← get_elem? b (i + 3)
    some (o.ntohl (o.word32 b0 b1 b2 b3))

  unfoldable pub read64 : List ℕ → ℕ → Option ℕ
  read64 b i = do
    b0 ← get_elem? b i
    b1 ← get_elem? b (i + 1)
    b2 ← get_elem? b (i + 2)
    b3 ← get_elem? b (i + 3)
    b4 ← get_elem? b (i + 4)
    b5 ← get_elem? b (i + 5)
    b6 ← get_elem? b (i + 6)
    b7 ← get_elem? b (i + 7)
    some (ntohll (o.word64 b0 b1 b2 b3 b4 b5 b6 b7))

  -- A read that ends within the bytes finds a value.
  pub read16-lt : (b : List ℕ) (i : ℕ) → i + 2 ≤ length b → (v : ℕ) × (read16 b i ≡ some v)
  unfolding read16
  read16-lt b i h =
      let (b0, e0) = get_elem?-lt b i (omega arith) in
      let (b1, e1) = get_elem?-lt b (i + 1) (omega arith) in
      (o.ntohs (o.word16 b0 b1), simp (e0, e1))

  pub read32-lt : (b : List ℕ) (i : ℕ) → i + 4 ≤ length b → (v : ℕ) × (read32 b i ≡ some v)
  unfolding read32
  read32-lt b i h =
      let (b0, e0) = get_elem?-lt b i (omega arith) in
      let (b1, e1) = get_elem?-lt b (i + 1) (omega arith) in
      let (b2, e2) = get_elem?-lt b (i + 2) (omega arith) in
      let (b3, e3) = get_elem?-lt b (i + 3) (omega arith) in
      (o.ntohl (o.word32 b0 b1 b2 b3), simp (e0, e1, e2, e3))

  pub read64-lt : (b : List ℕ) (i : ℕ) → i + 8 ≤ length b → (v : ℕ) × (read64 b i ≡ some v)
  unfolding read64
  read64-lt b i h =
      let (b0, e0) = get_elem?-lt b i (omega arith) in
      let (b1, e1) = get_elem?-lt b (i + 1) (omega arith) in
      let (b2, e2) = get_elem?-lt b (i + 2) (omega arith) in
      let (b3, e3) = get_elem?-lt b (i + 3) (omega arith) in
      let (b4, e4) = get_elem?-lt b (i + 4) (omega arith) in
      let (b5, e5) = get_elem?-lt b (i + 5) (omega arith) in
      let (b6, e6) = get_elem?-lt b (i + 6) (omega arith) in
      let (b7, e7) = get_elem?-lt b (i + 7) (omega arith) in
      (ntohll (o.word64 b0 b1 b2 b3 b4 b5 b6 b7), simp (e0, e1, e2, e3, e4, e5, e6, e7))

  -- Bytes in front shift a read.
  pub get_elem?-append_right :
      (a b : List ℕ) (i j : ℕ) → j ≡ length a + i → get_elem? (a ++ b) j ≡ get_elem? b i
  get_elem?-append_right [] b i j e = ap (get_elem? b) (omega arith)
  get_elem?-append_right (x ∷ a) b i zero e = absurd (omega arith)
  get_elem?-append_right (x ∷ a) b i (suc j) e = get_elem?-append_right a b i j (omega arith)

  pub read64-append : (a b : List ℕ) (i : ℕ) → i ≡ length a → read64 (a ++ b) i ≡ read64 b 0
  unfolding read64
  read64-append a b i e = simp (
    get_elem?-append_right a b 0 i (omega arith),
    get_elem?-append_right a b 1 (i + 1) (omega arith),
    get_elem?-append_right a b 2 (i + 2) (omega arith),
    get_elem?-append_right a b 3 (i + 3) (omega arith),
    get_elem?-append_right a b 4 (i + 4) (omega arith),
    get_elem?-append_right a b 5 (i + 5) (omega arith),
    get_elem?-append_right a b 6 (i + 6) (omega arith),
    get_elem?-append_right a b 7 (i + 7) (omega arith),
  )

  -- What is written in network order is read back.
  pub read16-be16 : (x : ℕ) (rest : List ℕ) → x < 2 ^ 16 → read16 (be16 x ++ rest) 0 ≡ some x
  unfolding read16
  read16-be16 x rest h =
      ap some (rw (o.ntohs_host (x / 256) (x % 256) (omega arith) (omega arith)) (omega arith))

  pub read32-be32 : (x : ℕ) (rest : List ℕ) → x < 2 ^ 32 → read32 (be32 x ++ rest) 0 ≡ some x
  unfolding read32
  read32-be32 x rest h = ap some (
      rw
        (o.ntohl_host (x / 16777216) (x / 65536 % 256) (x / 256 % 256) (x % 256) (omega arith)
          (omega arith) (omega arith) (omega arith))
        (omega arith))

  pub read64-be64 : (x : ℕ) (rest : List ℕ) → x < 2 ^ 64 → read64 (be64 x ++ rest) 0 ≡ some x
  unfolding read64
  read64-be64 x rest h = ap some (
      rw
        (ntohll_host (x / 2 ^ 32 / 16777216) (x / 2 ^ 32 / 65536 % 256) (x / 2 ^ 32 / 256 % 256)
          (x / 2 ^ 32 % 256) (x % 2 ^ 32 / 16777216) (x % 2 ^ 32 / 65536 % 256)
          (x % 2 ^ 32 / 256 % 256) (x % 2 ^ 32 % 256) (omega arith) (omega arith) (omega arith)
          (omega arith) (omega arith) (omega arith) (omega arith) (omega arith))
        (omega arith))
