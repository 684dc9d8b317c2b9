-- ===== src/ReadMsg/Frames.antt =====
-- What `read_msg` does with a message, and with anything else.
use ldms_test.Base.{
  ℕ, suc, ◌+◌, ◌≡◌, ◌⊎◌, inl, inr, refl, ap, ◌∙◌, Text, true, none, some, List, [], ◌∷◌, ◌++◌, ◌==◌,
  nat_eq, text_eq, if◌then◌else◌, drop, length, length-append, append_assoc, Result, ok, err, Exc,
  Bool-cases, arith, ◌>>=◌,
}
use ldms_test.Base.Strings.{text, strip, Lacks}
use ldms_test.ReadMsg.{File, read_until, decode, read_body, read_msg}

-- A message as the writer puts it into the file.
abbrev pub frame : Text → Text → Text
frame type body = 1 ∷ (type ++ (2 ∷ (body ++ (3 ∷ []))))

drop-length {ℓ} : {A : Type ℓ} (xs ys : List A) → drop (length xs) (xs ++ ys) ≡ ys
drop-length [] ys = refl
drop-length (x ∷ xs) ys = drop-length xs ys

drop-suc-length {ℓ} :
    {A : Type ℓ} (xs : List A) (y : A) (ys : List A) → drop (suc (length xs)) (xs ++ (y ∷ ys)) ≡ ys
drop-suc-length [] y ys = refl
drop-suc-length (x ∷ xs) y ys = drop-suc-length xs y ys

read_until-append :
    (stop : ℕ) (w s : Text)
    → Lacks stop w
    → read_until stop (w ++ (stop ∷ s)) ≡ (w, true, suc (length w))
unfolding read_until
read_until-append stop [] s h = ground arith
read_until-append stop (c ∷ w) s h = ground (arith, read_until-append stop w s h.1)

frame-append :
    (type body post : Text) → frame type body ++ post ≡ 1 ∷ (type ++ (2 ∷ (body ++ (3 ∷ post))))
frame-append type body post =
    ap (λ s. 1 ∷ s)
      (append_assoc type _ post ∙ ap (λ s. type ++ (2 ∷ s)) (append_assoc body (3 ∷ []) post))

length-frame :
    (pre type body : Text)
    → length pre + 1 + suc (length type) + suc (length body) ≡ length (pre ++ frame type body)
length-frame pre type body = omega (
  arith,
  length-append pre (frame type body),
  length-append type (2 ∷ (body ++ (3 ∷ []))),
  length-append body (3 ∷ []),
)

module _ {J : Type 0} (loads : Text → Result J) where
  read_body-frame :
      (pos here : ℕ) (content type body post : Text)
      → Lacks 2 type
      → Lacks 3 body
      → read_body loads pos here content (type ++ (2 ∷ (body ++ (3 ∷ post)))) ≡ (
        decode loads type (strip 0 body),
        record { content = content; pos = here + suc (length type) + suc (length body) },
      )
  unfolding read_body
  read_body-frame pos here content type body post ht hb = rw (
    read_until-append 2 type (body ++ (3 ∷ post)) ht,
    drop-suc-length type 2 (body ++ (3 ∷ post)),
    read_until-append 3 body post hb,
  )

  read_msg-at :
      (content left : Text) (pos : ℕ)
      → drop pos content ≡ 1 ∷ left
      → read_msg loads (record { content = content; pos = pos })
        ≡ read_body loads pos (pos + 1) content left
  unfolding read_msg
  read_msg-at content left pos e = rw (e, read_msg)

  -- Where the file stands at a message whose type lacks "\x02" and whose text lacks "\x03",
  -- `read_msg` returns the type and the text without the NUL characters around it, with the
  -- object that the text encodes if the type is "json" (or the decoder's exception), and leaves
  -- the file right behind the message, whatever stands before and behind.
  pub read_msg-frame :
      (pre type body post : Text)
      → Lacks 2 type
      → Lacks 3 body
      → let content = pre ++ (frame type body ++ post) in
        let after : File = record { content = content; pos = length (pre ++ frame type body) } in
        read_msg loads (record { content = content; pos = length pre }) ≡ (
          if type == text "json"
              then (do
                o ← loads (strip 0 body)
                ok (record { type = type; body = strip 0 body; obj = some o }))
              else ok (record { type = type; body = strip 0 body; obj = none }),
          after,
        )
  unfolding decode
  read_msg-frame pre type body post ht hb =
      let content = pre ++ (frame type body ++ post) in
      read_msg-at content _ (length pre)
        (drop-length pre (frame type body ++ post) ∙ frame-append type body post)
      ∙ read_body-frame (length pre) (length pre + 1) content type body post ht hb
      ∙ ap (λ n. (decode loads type (strip 0 body), record { content = content; pos = n }))
          (length-frame pre type body)

  decode-err : (type body : Text) (e : Exc) → decode loads type body ≡ err e → loads body ≡ err e
  unfolding decode
  decode-err type body e h = ground arith

  -- What may be when a call raises.
  abbrev pub Failed : File → File → Exc → Type 0
  Failed f f' e = (f' ≡ f) ⊎ ((s : Text) × (loads s ≡ err e))

  read_body-err :
      (pos here : ℕ) (content left : Text) (f' : File) (e : Exc)
      → read_body loads pos here content left ≡ (err e, f')
      → Failed (record { content = content; pos = pos }) f' e
  unfolding read_body
  read_body-err pos here content left f' e h =
      let r2 = read_until 2 left in
      let r3 = read_until 3 (drop r2.2 left) in
      elim (Bool-cases r2.1) [
        | inr no_header ↦ inl (ground (arith, no_header))
        | inl headed ↦ elim (Bool-cases r3.1) [
          | inr cut ↦ inl (ground (arith, headed, cut))
          | inl ended ↦
              inr (strip 0 r3.0, decode-err r2.0 (strip 0 r3.0) e (ground (arith, headed, ended)))
        ]
      ]

  -- A call of `read_msg` that raises leaves the file where it was, so that it can be tried again
  -- when more was written, unless the exception is the decoder's for a text.
  pub read_msg-err_restores :
      (f f' : File) (e : Exc) → read_msg loads f ≡ (err e, f') → Failed f f' e
  unfolding read_msg
  read_msg-err_restores f f' e h = go (drop f.pos f.content) refl
    where
      go : (left : Text) → drop f.pos f.content ≡ left → Failed f f' e
      go [] q = inl (ground (arith, q, h))
      go (c ∷ left) q = elim (Bool-cases (c == 1)) [
        | inl begun ↦
            read_body-err f.pos (f.pos + 1) f.content left f' e (ground (arith, q, begun, h))
        | inr other ↦ inl (ground (arith, q, other, h))
      ]
