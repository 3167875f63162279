-- ===== src/Client/Bodies.antt =====
-- server/mqclient.cpp and server/QueueServer.cpp: the JSON texts that the two exchange, which both
-- write by hand, and what each reads of the other's.
use mathlib.Core.List.{append_assoc}
use monitor_queue.Prelude.{
  ℕ, ◌≡◌, refl, ap, ◌∙◌, Bool, true, false, not, ◌&&◌, [], ◌∷◌, arith, Str, All, bytes, ltb, leb,
  ◌==◌, str_lt, str_eq,
}
use monitor_queue.Json.Value.{
  object, string, Members, end, member, set, returns, lookup, integer_part,
}
use monitor_queue.Json.Object.{get_string, get_value, to_text, has}
use monitor_queue.Json.Chars.{plain, string_kind}
use monitor_queue.Json.Parse.{from_string}
use monitor_queue.Json.Print.{escape_char, escape_all, str_to_string, print_value}
use monitor_queue.Json.Strings.{is_printed}
use monitor_queue.Json.Plain.{IsPlain, IsKey, Loads, load_members}
use monitor_queue.Json.Reread.{from_string-print_value, from_string-print_members}
use monitor_queue.Server.Defs.{msg_payload, ack_arguments}
use monitor_queue.Client.Defs.{ack_body}

-- A character that stands for itself in a JSON string: a printed ASCII one, but no quote or backslash.
abbrev pub is_bare : ℕ → Bool
is_bare c = (leb 32 c && ltb c 128) && (not (c == 34) && not (c == 92))

abbrev pub Bare : Str → Type 0
Bare = All (λ c. is_bare c ≡ true)

escape_char-bare : (c : ℕ) → is_bare c ≡ true → escape_char c ≡ c ∷ []
unfolding escape_char
escape_char-bare c h = ground arith

pub escape_all-Bare : (s : Str) → Bare s → escape_all s ≡ s
unfolding escape_all
escape_all-Bare [] h = refl
escape_all-Bare (c ∷ s) h = rw (escape_char-bare c h.0, escape_all-Bare s h.1) refl

bare_printed : (c : ℕ) → is_bare c ≡ true → is_printed c ≡ true
bare_printed c h = ground arith

pub Bare-printed : (s : Str) → Bare s → All (λ c. is_printed c ≡ true) s
Bare-printed [] h = tt
Bare-printed (c ∷ s) h = (bare_printed c h.0, Bare-printed s h.1)

-- No text of the client's and the server's has a double but zero.
abbrev pub dtoa_zero : ℕ → Str
dtoa_zero n = bytes "0"

abbrev ack_members : Str → Str → Members
ack_members id tok = member (bytes "id") (string id) (member (bytes "tok") (string tok) end)

ack_body-print_value :
    (id tok : Str)
    → Bare id
    → Bare tok
    → ack_body id tok ≡ print_value dtoa_zero (object (ack_members id tok))
unfolding ack_body print_value str_to_string
ack_body-print_value id tok h k = simp (escape_all-Bare id h, escape_all-Bare tok k, append_assoc)

msg_payload-print_value :
    (id tok : Str)
    → Bare id
    → Bare tok
    → msg_payload id tok
      ≡ print_value dtoa_zero
          (object (member (bytes "type") (string (bytes "msg")) (ack_members id tok)))
unfolding msg_payload print_value str_to_string escape_all escape_char
msg_payload-print_value id tok h k =
    simp (escape_all-Bare id h, escape_all-Bare tok k, append_assoc)

pub IsKey-plain : (c : ℕ) (k : Str) → All (λ c. string_kind c ≡ plain) (c ∷ k) → IsKey (c ∷ k)
IsKey-plain c k h = (λ e. ground arith, h)

module _ (strtod : Str → ℕ × ℕ) where
  -- The server reads the client's acknowledgement as it is meant.
  pub ack_body-from_string :
      (id tok : Str)
      → Bare id
      → Bare tok
      → (o : Members) × (from_string strtod (ack_body id tok) ≡ returns (object o))
        × (ack_arguments o ≡ returns (record { id = id; token = tok; requeue = false; delay = 0 }))
  unfolding IsPlain string_kind str_lt ack_arguments get_string get_value to_text has lookup str_eq
      integer_part
  ack_body-from_string id tok h k = (
    ack_members id tok,
    ap (from_string strtod) (ack_body-print_value id tok h k)
        ∙ from_string-print_value strtod dtoa_zero (object (ack_members id tok)) refl (
          IsKey-plain _ _ (refl, (refl, tt)),
          refl,
          Bare-printed id h,
          (IsKey-plain _ _ (refl, (refl, (refl, tt))), tt, Bare-printed tok k, tt),
        ),
    refl,
  )

  -- The client reads the id and the token in the server's answer to a pop.
  pub msg_payload-from_string :
      (id tok : Str)
      → Bare id
      → Bare tok
      → (o : Members) × (from_string strtod (msg_payload id tok) ≡ returns (object o))
        × (get_string o (bytes "id") ≡ returns id)
        × (get_string o (bytes "tok") ≡ returns tok)
  unfolding IsPlain Loads string_kind load_members set str_lt str_eq get_string get_value to_text
      lookup
  msg_payload-from_string id tok h k = (
    _,
    ap (from_string strtod) (msg_payload-print_value id tok h k)
        ∙ from_string-print_members strtod dtoa_zero
            (member (bytes "type") (string (bytes "msg")) (ack_members id tok))
            (
              IsKey-plain _ _ (refl, (refl, (refl, (refl, tt)))),
              (refl, (refl, (refl, tt))),
              (
                IsKey-plain _ _ (refl, (refl, tt)),
                Bare-printed id h,
                (IsKey-plain _ _ (refl, (refl, (refl, tt))), Bare-printed tok k, tt),
              ),
            ),
    refl,
    refl,
  )
