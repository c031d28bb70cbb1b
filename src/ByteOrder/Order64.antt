-- ===== src/ByteOrder/Order64.antt =====
-- What `htonll` and `ntohll` of Pulsar/include/Pulsar.h put on the wire and read from it.
use pulsar_server_framework.Prelude.{
  ℕ, ◌+◌, ◌*◌, ◌/◌, ◌%◌, ◌^◌, ◌<◌, ◌≡◌, inl, inr, ◌==◌, ==_iff, Bool-cases, arith, false, ◌≢◌, sym,
  ◌∙◌,
}
use pulsar_server_framework.ByteOrder.{ByteOrder, htonll, ntohll, be64, IsByte}

module _ ⦃o : ByteOrder⦄ where
  ne_one : (x : ℕ) → (1 == x) ≡ false → x ≢ 1
  ne_one x h = ground arith

  -- The bytes of `htonll x`, for a 64-bit number, are those of `x` in network order.
  pub htonll_network : (x : ℕ) → x < 2 ^ 64 → o.bytes64 (htonll x) ≡ be64 x
  unfolding htonll
  htonll_network x h = elim (Bool-cases (1 == o.htonl 1)) [
    | inl big ↦ rw big (o.bytes64_big (sym ((==_iff _ _).0 big)) x h)
    | inr little ↦ rw (
      little,
      o.bytes64_little (ne_one _ little) (o.htonl (x % 2 ^ 32)) (o.htonl (x / 2 ^ 32))
          (o.htonl-lt _ (omega arith)) (o.htonl-lt _ (omega arith)),
      o.htonl_network (x / 2 ^ 32) (omega arith),
      o.htonl_network (x % 2 ^ 32) (omega arith),
    )
  ]

  -- `ntohll` of the number that stands at eight bytes is the number that they write in network order.
  pub ntohll_host :
      (a b c d e f g h : ℕ)
      → IsByte a
      → IsByte b
      → IsByte c
      → IsByte d
      → IsByte e
      → IsByte f
      → IsByte g
      → IsByte h
      → ntohll (o.word64 a b c d e f g h)
        ≡ (a * 16777216 + b * 65536 + c * 256 + d) * 2 ^ 32
          + (e * 16777216 + f * 65536 + g * 256 + h)
  unfolding ntohll
  ntohll_host a b c d e f g h p q r s t u v w = elim (Bool-cases (1 == o.ntohl 1)) [
    | inl big ↦ rw big (o.word64_big (sym o.same_order ∙ sym ((==_iff _ _).0 big)) a b c d e f g h)
    | inr little ↦ rw (
      little,
      o.word64_little (λ k. ne_one _ little (o.same_order ∙ k)) a b c d e f g h,
      low_half,
      high_half,
      o.ntohl_host a b c d p q r s,
      o.ntohl_host e f g h t u v w,
    )
  ]
    where
      low_half : (o.word32 e f g h * 2 ^ 32 + o.word32 a b c d) % 2 ^ 32 ≡ o.word32 a b c d
      low_half = omega (arith, o.word32-lt a b c d p q r s)

      high_half : (o.word32 e f g h * 2 ^ 32 + o.word32 a b c d) / 2 ^ 32 ≡ o.word32 e f g h
      high_half = omega (arith, o.word32-lt a b c d p q r s)
