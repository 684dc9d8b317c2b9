-- ===== src/ReadMsg.antt =====
-- `read_msg` of LDMS_Test.py: it reads one message, "\x01" type "\x02" text "\x03", from a file.
-- The file is its text and the position in it; `loads` stands for `json.loads`, whose objects are
-- of any type.
pub mod Frames
mod Examples
use ldms_test.Base.{
  ℕ, suc, ◌+◌, Text, Option, none, some, [], ◌∷◌, ◌==◌, nat_eq, text_eq, if◌then◌else◌, drop,
  Result, ok, err, value_error, ◌>>=◌, Bool, true, false,
}
use ldms_test.Base.Strings.{text, strip}

pub record File : Type 0 where
  pub content : Text
  pub pos : ℕ

pub record Message (J : Type 0) : Type 0 where
  pub type : Text
  pub body : Text
  pub obj : Option J

-- The loop `while c and c != stop`, from the characters that are left on: what is written to
-- `sio`, whether the last `c` is `stop`, and how many characters are read.
unfoldable pub read_until : ℕ → Text → Text × Bool × ℕ
read_until stop [] = ([], false, 0)
read_until stop (c ∷ s) =
    let (written, found, n) = read_until stop s in
    if c == stop then ([], true, 1) else (c ∷ written, found, suc n)

module _ {J : Type 0} (loads : Text → Result J) where
  -- What follows the loops.
  decode : Text → Text → Result (Message J)
  decode type body =
      if type == text "json"
      then (do o ← loads body; ok (record { type = type; body = body; obj = some o }))
      else ok (record { type = type; body = body; obj = none })

  -- After the "\x01", from the characters that are left on: the header, then the text. `pos` is
  -- where the call began, and `here` where the file stands now.
  read_body : ℕ → ℕ → Text → Text → Result (Message J) × File
  unfolding decode
  read_body pos here content left =
      let back : File = record { content = content; pos = pos } in
      let (type, headed, n) = read_until 2 left in
      let (body, ended, m) = read_until 3 (drop n left) in
      let after : File = record { content = content; pos = here + n + m } in
      if headed
      then (if ended then (decode type (strip 0 body), after) else (err value_error, back))
      else (err value_error, back)

  unfoldable pub read_msg : File → Result (Message J) × File
  unfolding read_body
  read_msg f = elim (drop f.pos f.content) [
    | [] ↦ (err value_error, f)
    | c ∷ left ↦ if c == 1 then read_body f.pos (f.pos + 1) f.content left else (err value_error, f)
  ]
