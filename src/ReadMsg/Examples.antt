-- ===== src/ReadMsg/Examples.antt =====
-- Runs of `read_msg`, and its theorems at concrete data.
use ldms_test.Base.{
  ℕ, ◌≡◌, refl, Text, none, some, [], ◌∷◌, ◌++◌, ◌==◌, text_eq, text_beq, length, Result, ok, err,
  value_error, ◌>>=◌, if◌then◌else◌,
}
use ldms_test.Base.Strings.{text, strip}
use ldms_test.ReadMsg.{File, Message, read_msg, read_until}
use ldms_test.ReadMsg.Frames.{frame, read_msg-frame}

-- A decoder that knows one object.
loads : Text → Result ℕ
loads s = if s == text "{}" then ok 0 else err value_error

abbrev noise : Text
noise = text "ok"

abbrev two_messages : Text
two_messages = noise ++ (frame (text "json") (text "{}") ++ frame (text "text") (text "hi"))

abbrev json_message : Message ℕ
json_message = record { type = text "json"; body = text "{}"; obj = some 0 }

first_message :
    read_msg loads (record { content = two_messages; pos = 2 })
    ≡ (ok json_message, record { content = two_messages; pos = 11 })
unfolding read_msg read_until strip loads text_beq
first_message = refl

-- The text of a message ends at the end of the file.
abbrev cut_message : File
cut_message = record { content = 1 ∷ (text "json" ++ (2 ∷ text "{")); pos = 0 }

cut_fails : read_msg loads cut_message ≡ (err value_error, cut_message)
unfolding read_msg read_until
cut_fails = refl

read_msg-frame_example :
    let content = noise ++ (frame (text "json") (text "{}") ++ []) in
    let after : File = record {
      content = content;
      pos = length (noise ++ frame (text "json") (text "{}"));
    } in
    read_msg loads (record { content = content; pos = length noise }) ≡ (
      if text "json" == text "json"
          then (do
            o ← loads (strip 0 (text "{}"))
            ok (record { type = text "json"; body = strip 0 (text "{}"); obj = some o }))
          else ok (record { type = text "json"; body = strip 0 (text "{}"); obj = none }),
      after,
    )
read_msg-frame_example =
    read_msg-frame loads noise (text "json") (text "{}") [] (refl, (refl, (refl, (refl, tt))))
      (refl, (refl, tt))
