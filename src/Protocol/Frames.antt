-- ===== src/Protocol/Frames.antt =====
-- The ErrorResponse of core/rust/src/protocol.rs as a client reads it.
use pg_prism.Prelude.{
  ℕ, zero, suc, ◌+◌, ◌-◌, ◌<◌, false, ◌||◌, List, [], ◌∷◌, ◌++◌, ◌≡◌, ◌≢◌, refl, arith, ltb, ◌==◌,
  if◌then◌else◌, is_empty, take, drop, take-length_append, drop-length_append, Option, none, some,
  length, length-append, append_assoc,
}
use pg_prism.Text.{Str, Bytes, codes, as_bytes}
use pg_prism.Text.Split.{split_once, split_once-append}
use pg_prism.Wire.{u32_size, as_u32, to_be_bytes, from_be_bytes, from_be_bytes-to_be_bytes}
use pg_prism.Protocol.{error_body, make_error_response}
use pg_prism.Protocol.Startup.Refines.{IsNulFree}

-- A field of an ErrorResponse: its tag and its text.
abbrev pub Field : Type 0
Field = ℕ × Bytes

abbrev one_more : Field → Option (List Field) → Option (List Field)
one_more f none = none
one_more f (some fs) = some (f ∷ fs)

abbrev after_text : (Bytes → Option (List Field)) → ℕ → Option (Bytes × Bytes) → Option (List Field)
after_text read tag none = none
after_text read tag (some (text, rest)) = one_more (tag, text) (read rest)

-- The fields of an ErrorResponse's body: a tag and a text that a NUL ends, until a NUL tag with
-- nothing behind it. The fuel is the number of tags, the last one included.
pub read_fields : ℕ → Bytes → Option (List Field)
read_fields zero body = none
read_fields (suc fuel) [] = none
read_fields (suc fuel) (tag ∷ body) =
    if tag == 0
    then (if is_empty body then some [] else none)
    else after_text (read_fields fuel) tag (split_once 0 body)

-- A message by its declared length: type, payload, and what follows the message.
pub read_message : Bytes → Option (ℕ × Bytes × Bytes)
read_message (tag ∷ a ∷ b ∷ c ∷ d ∷ rest) =
    let n = from_be_bytes a b c d in
    if ltb n 4 || ltb (length rest) (n - 4)
    then none
    else some (tag, take (n - 4) rest, drop (n - 4) rest)
read_message _ = none

read_fields-text :
    (fuel tag : ℕ) (text rest : Bytes) (fs : List Field)
    → tag ≢ 0
    → IsNulFree text
    → read_fields fuel rest ≡ some fs
    → read_fields (suc fuel) (tag ∷ (text ++ (0 ∷ rest))) ≡ some ((tag, text) ∷ fs)
unfolding read_fields
read_fields-text fuel tag text rest fs nz h e =
    let other : (tag == 0) ≡ false = ground arith in
    rw other (rw (split_once-append 0 text rest h) (rw e refl))

-- The standard fields, in PostgreSQL's order.
abbrev pub fields_of : Str → Str → List Field
fields_of message code =
    (b'S', codes "ERROR")
    ∷ (b'V', codes "ERROR")
    ∷ (b'C', as_bytes code)
    ∷ (b'M', as_bytes message)
    ∷ []

error_body-read :
    (message code : Str)
    → IsNulFree (as_bytes message)
    → IsNulFree (as_bytes code)
    → read_fields 5 (error_body message code) ≡ some (fields_of message code)
unfolding error_body
error_body-read message code hm hc =
    read_fields-text 4 b'S' (codes "ERROR") _ _ (omega arith) (omega arith) (
      read_fields-text 3 b'V' (codes "ERROR") _ _ (omega arith) (omega arith) (
        read_fields-text 2 b'C' (as_bytes code) _ _ (omega arith) hc (
          read_fields-text 1 b'M' (as_bytes message) (0 ∷ []) [] (omega arith) hm
            (unfold read_fields in refl))))

-- A client reads the message type, exactly the body by its declared length, and the stream behind
-- it unharmed.
pub read_message-frame :
    (tag : ℕ) (body rest : Bytes)
    → length body + 4 < u32_size
    → read_message (tag ∷ (to_be_bytes (as_u32 (length body + 4)) ++ (body ++ rest)))
      ≡ some (tag, body, rest)
unfolding read_message to_be_bytes
read_message-frame tag body rest h =
    let n : as_u32 (length body + 4) ≡ length body + 4 = omega arith in
    let m : length body + 4 - 4 ≡ length body = omega arith in
    let low : ltb (length body + 4) 4 ≡ false = ground arith in
    let fits : ltb (length (body ++ rest)) (length body) ≡ false =
      ground (arith, length-append body rest) in
    rw (n, from_be_bytes-to_be_bytes (length body + 4) h, m, low, fits)
      (rw (take-length_append body rest, drop-length_append body rest))

-- A client that reads by declared lengths gets, out of an ErrorResponse and whatever follows it,
-- one message of type `E` with the fields S, V, C and M, and goes on exactly behind it. The texts
-- have no NUL, and are short enough for a 32-bit length.
pub make_error_response-read :
    (message code : Str) (rest : Bytes)
    → IsNulFree (as_bytes message)
    → IsNulFree (as_bytes code)
    → length (error_body message code) + 4 < u32_size
    → (body : Bytes) × (read_message (make_error_response message code ++ rest)
        ≡ some (b'E', body, rest))
      × (read_fields 5 body ≡ some (fields_of message code))
unfolding make_error_response
make_error_response-read message code rest hm hc h =
    let body = error_body message code in
    (
      body,
      rw (append_assoc (to_be_bytes (as_u32 (length body + 4))) body rest)
          (read_message-frame b'E' body rest h),
      error_body-read message code hm hc,
    )
