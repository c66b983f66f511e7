-- ===== src/Tui/Tests.antt =====
-- The table of the terminal user interface (cmd/perunnodetui/) at concrete inputs.
use dst_go.Base.{
  [], ◌∷◌, true, none, some, done, panic, Ensures, ◌≡◌, refl, ltb, length, if◌then◌else◌, pos,
  get_elem?,
}
use dst_go.Errors.{text, with_message, ok, fail}
use dst_go.Grpc.{PayChInfoMsg, msg_success}
use dst_go.Tui.Text.{trim_zeros, trim_right, contains, atoi, digits, digits_from, signed, in_range}
use dst_go.Channel.{Currency}
use dst_go.Tui.Text.{split_spaces, negated}
use dst_go.Tui.Commands.{
  Screen, handle_cmd, parse_words, is_command, respond_cmd, at_row, open_cmd_handler, get_row,
  open_in,
}
use dst_go.Tui.Rows.{IsPlaced}
use dst_go.Tui.Placed.{commanded, shown_all, shown_all-IsPlaced}
use dst_go.Base.{ℕ, zero, suc, arith}
use dst_go.Tui.Client.{NodeClient, no_bal, close_request, informed}
use dst_go.Tui.Entry.{Entry, transact_phase, open_phase, waiting_for_user, no_update}
use dst_go.Tui.Requests.{respond}
use dst_go.Tui.Registry.{
  new_entry_registry, empty_rows, put_at_index, set_ch_id_at, get_by_ch_id, get_by_index,
  get_by_ch_id-put_at_index,
}
use dst_go.Tui.Laws.{IsAnswered, respond-IsAnswered}

abbrev info : PayChInfoMsg
info = record {
  ch_id_field = "ab";
  bal_info_field = record {
    currencies_field = "ETH" ∷ [];
    parts_field = "self" ∷ "bob" ∷ [];
    bals_field = record { bal = "1.50" ∷ "2" ∷ [] } ∷ [];
  };
  version_field = "1";
}

-- A node that agrees to all but to closing a channel.
abbrev node : NodeClient
node = record {
  open_pay_ch = λ bal secs. ok (msg_success info);
  respond_pay_ch_proposal = λ id accept. ok (msg_success info);
  send_pay_ch_update = λ ch payments. ok (msg_success info);
  respond_pay_ch_update = λ ch id accept. ok (msg_success info);
  close_pay_ch = λ ch. fail (text "unavailable");
}

abbrev incoming : Entry
incoming = record {
  phase = open_phase;
  peer = "bob";
  current = no_bal;
  status = waiting_for_user;
  timeout = "10:00:00";
  proposed = record { ours = "1.50"; theirs = "2"; version = "0" };
  ch_id = "";
  update_id = "p";
  is_incoming = true;
  s_no = 1;
  calls = [];
}

respond-IsAnswered_example : Ensures (IsAnswered (some node)) (respond (some node) true incoming)
respond-IsAnswered_example = respond-IsAnswered (some node) true incoming

abbrev transacting : Entry
transacting = record incoming {
  phase = transact_phase;
  status = no_update;
  current = record { ours = "1.5"; theirs = "2"; version = "1" };
  ch_id = "ab";
}

unavailable :
    close_request (some node) "ab"
    ≡ done (fail (with_message (text "unavailable") "sending channel update"))
unfolding close_request informed
unavailable = refl

get_by_ch_id-put_at_index_example :
    get_by_ch_id "ab" (set_ch_id_at "ab" 1 (put_at_index 1 transacting (new_entry_registry 1)))
    ≡ (if ltb 1 (length (new_entry_registry 1).proposals) then done (some transacting) else panic)
get_by_ch_id-put_at_index_example =
    get_by_ch_id-put_at_index "ab" 1 transacting (new_entry_registry 1)

one_and_a_half : trim_zeros "1.500" ≡ "1.5"
unfolding trim_zeros trim_right contains
one_and_a_half = refl

whole_stays : trim_zeros "100" ≡ "100"
unfolding trim_zeros contains
whole_stays = refl

version_after_nine : atoi "9" ≡ some (pos 9)
unfolding atoi digits digits_from signed in_range
version_after_nine = refl

final_version : atoi "3 F" ≡ none
unfolding atoi digits digits_from signed
final_version = refl

-- The table at the start.
abbrev fresh : Screen
fresh = record { current_index = 1; last_index = 9; registry = new_entry_registry 6 }

nothing_shown : (n i : ℕ) (p : Entry) → get_elem? (empty_rows n) i ≡ some (some p) → ⊥
unfolding empty_rows
nothing_shown zero i p e = cc
nothing_shown (suc n) zero p e = ground arith
nothing_shown (suc n) (suc i) p e = nothing_shown n i p e

fresh-IsPlaced : IsPlaced fresh
unfolding new_entry_registry
fresh-IsPlaced = record {
  in_row = λ i p e. absurd (nothing_shown 6 i p e);
  given_out = λ i p e. absurd (nothing_shown 6 i p e);
}

abbrev amounts : Currency
amounts = record { symbol = "ETH"; parse = λ s. ok (pos 2); print = λ n. "2" }

shown_all-IsPlaced_example : Ensures IsPlaced (
    shown_all
      (some node)
      amounts
      (λ t. "10:00:00")
      (commanded "open" ("bob" ∷ "1" ∷ "2" ∷ []) ∷ commanded "close" ("1" ∷ []) ∷ [])
      fresh)
shown_all-IsPlaced_example =
    shown_all-IsPlaced (some node) amounts (λ t. "10:00:00")
      (commanded "open" ("bob" ∷ "1" ∷ "2" ∷ []) ∷ commanded "close" ("1" ∷ []) ∷ []) fresh
      fresh-IsPlaced

words : handle_cmd "send 1 0.5" ≡ ok ("send", "1" ∷ "0.5" ∷ [])
unfolding handle_cmd parse_words is_command split_spaces
words = refl

unknown_word : handle_cmd "pay 1" ≡ fail (text "invalid command: pay")
unfolding handle_cmd parse_words is_command split_spaces
unknown_word = refl

-- A negative row is not refused.
negative_row : respond_cmd (some node) amounts true ("-1" ∷ []) fresh ≡ panic
unfolding respond_cmd at_row atoi digits digits_from signed in_range negated get_by_index
negative_row = refl

-- A full table is not refused.
full_table :
    open_cmd_handler
      (some node)
      amounts
      ("bob" ∷ "1" ∷ "2" ∷ [])
      (record fresh { current_index = 9 })
    ≡ panic
unfolding open_cmd_handler get_row open_in
full_table = refl
