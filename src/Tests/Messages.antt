-- ===== src/Tests/Messages.antt =====
-- A simple encoding of the messages of crates/raftcore/src/types.rs, for the theorems that take one.
use ferris_ferry.Prelude.{
  ℕ, zero, suc, ◌≡◌, refl, ap, ◌∙◌, Option, none, some, List, [], ◌∷◌, Bool, true, false, arith,
}
use ferris_ferry.Types.{
  LogEntry, Bytes, Message, request_vote, request_vote_response, append_entries,
  append_entries_response, install_snapshot, install_snapshot_response,
}
use ferris_ferry.Files.{Codec, RoundTrip}

abbrev bit : Bool → ℕ
bit true = 1
bit false = 0

abbrev of_bit : ℕ → Bool
of_bit zero = false
of_bit (suc n) = true

bit_back : (b : Bool) → of_bit (bit b) ≡ b
bit_back true = refl
bit_back false = refl

abbrev choice : Option ℕ → ℕ
choice none = 0
choice (some n) = suc n

abbrev of_choice : ℕ → Option ℕ
of_choice zero = none
of_choice (suc n) = some n

choice_back : (o : Option ℕ) → of_choice (choice o) ≡ o
choice_back none = refl
choice_back (some n) = refl

-- An entry is its bytes, each after a 0, and then a 1 and its term.
abbrev encode_command : Bytes → Bytes → Bytes
encode_command [] rest = rest
encode_command (b ∷ bs) rest = 0 ∷ b ∷ encode_command bs rest

abbrev encode_entries : List LogEntry → Bytes
encode_entries [] = []
encode_entries (e ∷ es) = encode_command e.command (1 ∷ e.term ∷ encode_entries es)

abbrev push : ℕ → ℕ → List LogEntry → List LogEntry
push zero b [] = []
push zero b (e ∷ es) = record { term = e.term; command = b ∷ e.command } ∷ es
push (suc k) term es = record { term = term; command = [] } ∷ es

abbrev decode_entries : Bytes → List LogEntry
decode_entries [] = []
decode_entries (x ∷ []) = []
decode_entries (k ∷ n ∷ rest) = push k n (decode_entries rest)

command_back :
    (bs : Bytes) (term : ℕ) (rest : Bytes)
    → decode_entries (encode_command bs (1 ∷ term ∷ rest))
      ≡ record { term = term; command = bs } ∷ decode_entries rest
command_back [] term rest = refl
command_back (b ∷ bs) term rest = ap (push 0 b) (command_back bs term rest)

entries_back : (es : List LogEntry) → decode_entries (encode_entries es) ≡ es
entries_back [] = refl
entries_back (e ∷ es) =
    command_back e.command e.term (encode_entries es) ∙ ap (λ xs. e ∷ xs) (entries_back es)

abbrev encode_message : Message → Bytes
encode_message (request_vote m) =
    0 ∷ m.term ∷ m.candidate_id ∷ m.last_log_index ∷ m.last_log_term ∷ []
encode_message (request_vote_response m) = 1 ∷ m.id ∷ m.term ∷ bit m.vote_granted ∷ []
encode_message (append_entries m) =
    2
    ∷ m.term
    ∷ m.leader_id
    ∷ m.prev_log_index
    ∷ m.prev_log_term
    ∷ m.leader_commit
    ∷ encode_entries m.entries
encode_message (append_entries_response m) =
    3
    ∷ m.id
    ∷ m.term
    ∷ m.match_index
    ∷ bit m.success
    ∷ choice m.first_conflicting_index
    ∷ choice m.first_conflicting_term
    ∷ []
encode_message (install_snapshot m) =
    4 ∷ m.term ∷ m.leader_id ∷ m.last_included_index ∷ m.last_included_term ∷ m.payload
encode_message (install_snapshot_response m) = 5 ∷ m.id ∷ m.term ∷ m.last_included_index ∷ []

abbrev decode_message : Bytes → Option Message
decode_message (zero ∷ a ∷ b ∷ c ∷ d ∷ []) =
    some
      (request_vote (record { term = a; candidate_id = b; last_log_index = c; last_log_term = d }))
decode_message (suc zero ∷ a ∷ b ∷ c ∷ []) =
    some (request_vote_response (record { id = a; term = b; vote_granted = of_bit c }))
decode_message (suc (suc zero) ∷ a ∷ b ∷ c ∷ d ∷ e ∷ es) = some (
    append_entries (record {
      term = a;
      leader_id = b;
      prev_log_index = c;
      prev_log_term = d;
      entries = decode_entries es;
      leader_commit = e;
    }))
decode_message (suc (suc (suc zero)) ∷ a ∷ b ∷ c ∷ d ∷ e ∷ f ∷ []) = some (
    append_entries_response (record {
      id = a;
      term = b;
      match_index = c;
      success = of_bit d;
      first_conflicting_index = of_choice e;
      first_conflicting_term = of_choice f;
    }))
decode_message (suc (suc (suc (suc zero))) ∷ a ∷ b ∷ c ∷ d ∷ payload) = some (
    install_snapshot (record {
      term = a;
      leader_id = b;
      last_included_index = c;
      last_included_term = d;
      payload = payload;
    }))
decode_message (suc (suc (suc (suc (suc zero)))) ∷ a ∷ b ∷ c ∷ []) =
    some (install_snapshot_response (record { id = a; term = b; last_included_index = c }))
decode_message _ = none

message_back : (m : Message) → decode_message (encode_message m) ≡ some m
message_back (request_vote m) = refl
message_back (request_vote_response m) = rw (bit_back m.vote_granted) refl
message_back (append_entries m) = rw (entries_back m.entries) refl
message_back (append_entries_response m) =
    rw
      (
        bit_back m.success,
        choice_back m.first_conflicting_index,
        choice_back m.first_conflicting_term,
      )
      refl
message_back (install_snapshot m) = refl
message_back (install_snapshot_response m) = refl

abbrev pub message_codec : Codec Message
message_codec = record { to_allocvec = λ m. some (encode_message m); from_bytes = decode_message }

pub message_encodes : (m : Message) → (b : Bytes) × (message_codec.to_allocvec m ≡ some b)
message_encodes m = (encode_message m, refl)

pub message_trip : RoundTrip message_codec
message_trip m b h = ground (arith, message_back m)
