-- ===== src/Http/Certificate/Slices.antt =====
-- What the views of a certificate show.
use mongoose_cpp.Prelude.{
  ℕ, ◌+◌, ◌≡◌, refl, sym, ◌∙◌, ap, [], ◌++◌, Bytes, arith, length, take, drop, length-append,
  append_assoc, append-nil, take-append_left, drop-append_left,
}
use mongoose_cpp.Http.Certificate.{Fields, make_cert_info, append_fields, show_slice}

-- The middle of three parts.
middle :
    (buffer a b c : Bytes) (n : ℕ)
    → buffer ≡ a ++ (b ++ c)
    → n ≡ length a
    → take (length b) (drop n buffer) ≡ b
middle buffer a b c n h e =
    ap (λ z. take (length b) (drop z buffer)) e
    ∙ ap (λ z. take (length b) (drop (length a) z)) h
    ∙ ap (take (length b)) (drop-append_left a (b ++ c))
    ∙ take-append_left b c

-- Every view of a certificate shows its own field, whatever the six texts are.
slices_show_fields :
    (f : Fields)
    → let info = make_cert_info f in
      (show_slice info.buffer info.subject_name ≡ f.subject)
      × (show_slice info.buffer info.issuer_name ≡ f.issuer)
      × (show_slice info.buffer info.serial_number ≡ f.serial)
      × (show_slice info.buffer info.not_before ≡ f.before)
      × (show_slice info.buffer info.not_after ≡ f.after)
      × (show_slice info.buffer info.fingerprint ≡ f.fingerprint)
unfolding make_cert_info append_fields
slices_show_fields f =
    let s = f.subject in
    let i = f.issuer in
    let n = f.serial in
    let b = f.before in
    let a = f.after in
    let p = f.fingerprint in
    let buffer = append_fields f in
    let si = length-append s i in
    let sn = length-append (s ++ i) n in
    let sb = length-append ((s ++ i) ++ n) b in
    let sa = length-append (((s ++ i) ++ n) ++ b) a in
    (
      middle buffer [] s (i ++ n ++ b ++ a ++ p) 0 (simp append_assoc) refl,
      middle buffer s i (n ++ b ++ a ++ p) (length s) (simp append_assoc) refl,
      middle buffer (s ++ i) n (b ++ a ++ p) (length s + length i) (simp append_assoc) (sym si),
      middle buffer ((s ++ i) ++ n) b (a ++ p) (length s + length i + length n) (simp append_assoc)
          (omega (arith, si, sn)),
      middle buffer (((s ++ i) ++ n) ++ b) a p (length s + length i + length n + length b)
          (simp append_assoc) (omega (arith, si, sn, sb)),
      middle buffer ((((s ++ i) ++ n) ++ b) ++ a) p []
          (length s + length i + length n + length b + length a)
          (ap (◌++◌ ((((s ++ i) ++ n) ++ b) ++ a)) (sym (append-nil p)))
          (omega (arith, si, sn, sb, sa)),
    )
