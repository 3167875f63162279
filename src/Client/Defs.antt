-- ===== src/Client/Defs.antt =====
-- server/mqclient.cpp: requests and replies. What the client asks of Poco and of the machine is a
-- session: a state, which a request and a pause change. A request comes to a reply, or to an
-- exception of Poco's. A step of the client is a function of that state.
use monitor_queue.Prelude.{
  ℕ, zero, suc, ◌+◌, ◌-◌, ◌*◌, ◌%◌, ◌^◌, Bool, true, false, ◌&&◌, ◌||◌, Option, none, some, List,
  [], ◌∷◌, ◌++◌, Str, bytes, length, to_string, ltb, leb, ◌≡◌, ap, ◌==◌, if◌then◌else◌,
}
use monitor_queue.Json.Value.{number, Outcome, returns, throws}
use monitor_queue.Json.Object.{Iter}
use monitor_queue.Json.Parse.{from_string}
use monitor_queue.Json.Cell.{Cell, whole, null_string, Change, changed, faulted, clear}
use monitor_queue.Server.Defs.{read_chars, http_ok}

-- Poco's HTTPRequest, as far as the client sets it, with the body that goes with it.
pub record HttpRequest : Type 0 where
  pub method : Str
  pub uri : Str
  pub content_length : ℕ
  pub content_type : Option Str
  pub body : Str

-- The content length is `none` where Poco gives -1, for one that is not known.
pub record Reply : Type 0 where
  pub status : ℕ
  pub content_length : Option ℕ
  pub stream : Str

pub record Session (S : Type 0) : Type 0 where
  pub send : S → HttpRequest → Outcome Reply × S
  pub sleep : S → (seconds : ℕ) → S

-- A new HTTPRequest
unfoldable pub new_request : Str → Str → HttpRequest
new_request method uri = record {
  method = method;
  uri = uri;
  content_length = 0;
  content_type = none;
  body = [];
}

-- What `doRequest` sets in the request. A content type that was set stays.
unfoldable pub prepare : HttpRequest → Option Str → HttpRequest
prepare r none = record r { content_length = 0; body = [] }
prepare r (some body) = record r {
  content_length = length body;
  content_type = some (bytes "application/json");
  body = body;
}

-- reply.clear() and reply.fromString(); the cell holds what was parsed last.
abbrev pub cleared : Change → Cell
cleared (changed c allocated deleted) = c
cleared faulted = null_string

module _ (strtod : Str → ℕ × ℕ) where
  -- doRequest, from the reply on: what the cell then holds
  unfoldable pub read_reply : Reply → Cell → Outcome Cell
  read_reply r cell =
      let size : ℕ = elim r.content_length [ none ↦ 0 | some n ↦ n ] in
      let body = read_chars size r.stream in
      let parsed : Outcome Cell = elim (from_string strtod body) [
        | throws e ↦ throws e
        | returns v ↦ returns (whole v)
      ] in
      if ltb 0 size
      then (if r.status == http_ok then parsed else throws (bytes "Request failed: " ++ body))
      else (if r.status == http_ok
          then returns (cleared (clear cell))
          else throws (bytes "Request failed: " ++ to_string r.status))

-- Steps of a client
abbrev pub M : Type 0 → Type 0 → Type 0
M S A = S → Outcome A × S

abbrev pub pure : {S A : Type 0} → A → M S A
pure a s = (returns a, s)

abbrev pub lift : {S A : Type 0} → Outcome A → M S A
lift o s = (o, s)

infixl 5 ◌>>=◌ ◌>>◌
abbrev pub ◌>>=◌ : {S A B : Type 0} → M S A → (A → M S B) → M S B
◌>>=◌ m f s = let (o, s') = m s in elim o [ returns a ↦ f a s' | throws e ↦ (throws e, s') ]

abbrev pub ◌>>◌ : {S B : Type 0} → M S (Unit {0}) → M S B → M S B
m >> k = m >>= λ _. k

-- A step that succeeds is followed by the next.
pub bind-returns :
    {S A B : Type 0} (m : M S A) (f : A → M S B) (s s' : S) (a : A)
    → m s ≡ (returns a, s')
    → (m >>= f) s ≡ f a s'
bind-returns {S} {A} {B} m f s s' a e =
    ap (λ (x : Outcome A × S). elim x.0 [ returns b ↦ f b x.1 | throws t ↦ (throws t, x.1) ]) e

-- if ( !test ) throw runtime_error( what );
abbrev pub guard : {S : Type 0} → Bool → Str → M S (Unit {0})
guard true e s = (returns tt, s)
guard false e s = (throws e, s)

module _ {S : Type 0} (strtod : Str → ℕ × ℕ) (w : Session S) where
  -- doRequest: the request, as it is sent, is `prepare r body`
  unfoldable pub do_request : HttpRequest → Option Str → Cell → M S Cell
  do_request r body cell s =
      let (o, s') = w.send s (prepare r body) in
      elim o [ throws e ↦ (throws e, s') | returns reply ↦ (read_reply strtod reply cell, s') ]

-- The bodies that the client writes
unfoldable pub push_item : ℕ → Str
push_item id = bytes "{\"id\":\"" ++ (to_string id ++ bytes "\",\"pri\":0}")

-- The loop of `doPush`, over the rounds that are left
unfoldable pub push_items : Str → ℕ → ℕ → ℕ → Str
push_items lead offset i zero = []
push_items lead offset i (suc n) =
    lead ++ (push_item ((offset + i) % 2 ^ 64) ++ push_items (bytes ",") offset (suc i) n)

unfoldable pub push_body : ℕ → ℕ → Str
push_body offset count = bytes "[" ++ (push_items [] offset 0 count ++ bytes "]")

unfoldable pub ack_body : Str → Str → Str
ack_body id tok = bytes "{\"id\":\"" ++ (id ++ (bytes "\",\"tok\":\"" ++ (tok ++ bytes "\"}")))

-- The loop of `doEraseFailed`
unfoldable pub erase_items : List Str → Str
erase_items [] = []
erase_items (id ∷ ids) = bytes "\"" ++ (id ++ (bytes "\"" ++ erase_items ids))

unfoldable pub erase_body : List Str → Str
erase_body ids = bytes "[" ++ (erase_items ids ++ bytes "]")

-- std::stoi, and the conversion of its result to `size_t`
abbrev pub is_space : ℕ → Bool
is_space c = (c == 32) || (leb 9 c && leb c 13)

abbrev pub is_numeral : ℕ → Bool
is_numeral c = leb b'0' c && leb c b'9'

unfoldable pub read_numerals : ℕ → Str → ℕ
read_numerals n [] = n
read_numerals n (c ∷ cs) =
    let more = read_numerals (n * 10 + (c - b'0')) cs in if is_numeral c then more else n

unfoldable pub skip_spaces : Str → Str
skip_spaces [] = []
skip_spaces (c ∷ cs) = let rest = skip_spaces cs in if is_space c then rest else c ∷ cs

-- The digits behind the sign: at least one, and a value within an `int`
unfoldable pub stoi_digits : Bool → Str → Outcome ℕ
stoi_digits negative [] = throws (bytes "stoi")
stoi_digits negative (c ∷ cs) =
    let n = read_numerals 0 (c ∷ cs) in
    if is_numeral c && leb n (if negative then 2 ^ 31 else 2 ^ 31 - 1)
    then returns (if negative then (2 ^ 64 - n) % 2 ^ 64 else n)
    else throws (bytes "stoi")

unfoldable pub stoi_signed : Str → Outcome ℕ
stoi_signed [] = throws (bytes "stoi")
stoi_signed (c ∷ cs) =
    if c == b'-'
    then stoi_digits true cs
    else (if c == b'+' then stoi_digits false cs else stoi_digits false (c ∷ cs))

unfoldable pub stoi : Str → Outcome ℕ
stoi s = stoi_signed (skip_spaces s)

-- obj.type(), of the entry that `has` found
unfoldable pub iter_is_number : Iter → Outcome Bool
iter_is_number none = throws (bytes "Key not set")
iter_is_number (some (key, number n)) = returns true
iter_is_number (some (key, v)) = returns false
