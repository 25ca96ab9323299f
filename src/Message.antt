-- ===== src/Message.antt =====
-- `Message` (inc/Message.hpp, src/Message.cpp): the packets between server and clients. A `char`
-- array is the list of its bytes; `strcpy` reads up to a NUL and leaves what stands behind it.
use sisop2_tf.Base.{
  ℕ, suc, ◌<◌, ◌≡◌, ◌≢◌, refl, arith, All, lt→ltb, Option, none, some, List, [], ◌∷◌, ◌++◌, ltb,
  ◌==◌, if◌then◌else◌, length, drop,
}

pub data MessageType : Type 0 where
  ack nack follow update sign_in shutdown_req dummy_message reconnect keep_alive : MessageType

pub record Message : Type 0 where
  pub type : MessageType
  pub timestamp : ℕ
  pub author : List ℕ
  pub payload : List ℕ

-- The text in a `char` array; `none` where no NUL ends it.
unfoldable pub c_str : List ℕ → Option (List ℕ)
c_str [] = none
c_str (c ∷ cs) =
    let rest = c_str cs in
    if c == 0 then some [] else elim rest [ none ↦ none | some s ↦ some (c ∷ s) ]

-- `strcpy` of a text into an array; `none` where it writes past the end.
unfoldable pub strcpy : List ℕ → List ℕ → Option (List ℕ)
strcpy dst text =
    if ltb (length text) (length dst) then some (text ++ 0 ∷ drop (suc (length text)) dst) else none

-- `Message(Type, std::string)` over the memory `blank`, which its other members keep.
unfoldable pub new_message : Message → MessageType → ℕ → List ℕ → Option Message
new_message blank type now text = elim (strcpy blank.payload text) [
  | none ↦ none
  | some bytes ↦ some (record blank { type = type; timestamp = now; payload = bytes })
]

-- `Message(Type, time_t, char[256], char[256])`, from two texts.
unfoldable pub new_message_from : Message → MessageType → ℕ → List ℕ → List ℕ → Option Message
new_message_from blank type timestamp author text = elim (strcpy blank.author author) [
  | none ↦ none
  | some name ↦ elim (strcpy blank.payload text) [
    | none ↦ none
    | some bytes ↦
        some (record { type = type; timestamp = timestamp; author = name; payload = bytes })
  ]
]

-- The setters. Those of the two arrays copy a text.
abbrev pub set_type : MessageType → Message → Message
set_type type m = record m { type = type }

abbrev pub set_timestamp : ℕ → Message → Message
set_timestamp timestamp m = record m { timestamp = timestamp }

abbrev pub set_author : List ℕ → Message → Option Message
set_author text m = elim (strcpy m.author text) [
  | none ↦ none
  | some bytes ↦ some (record m { author = bytes })
]

abbrev pub set_payload : List ℕ → Message → Option Message
set_payload text m = elim (strcpy m.payload text) [
  | none ↦ none
  | some bytes ↦ some (record m { payload = bytes })
]

-- What a copy has made, or nothing.
abbrev pub or_empty : Option (List ℕ) → List ℕ
or_empty none = []
or_empty (some bytes) = bytes

-- The text in front of a NUL.
pub c_str-append :
    (text rest : List ℕ) → All (λ c. c ≢ 0) text → c_str (text ++ 0 ∷ rest) ≡ some text
unfolding c_str
c_str-append [] rest h = refl
c_str-append (c ∷ cs) rest h = ground (arith, h.0, c_str-append cs rest h.1)

-- A text without NUL that is shorter than the array can be copied to it, and is what is read from the
-- array then.
pub c_str-strcpy :
    (dst text : List ℕ)
    → All (λ c. c ≢ 0) text
    → length text < length dst
    → (bytes : List ℕ) × (strcpy dst text ≡ some bytes) × (c_str bytes ≡ some text)
unfolding strcpy
c_str-strcpy dst text h fits = (
  text ++ 0 ∷ drop (suc (length text)) dst,
  rw (lt→ltb (length text) (length dst) fits),
  c_str-append text _ h,
)
