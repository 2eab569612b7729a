-- ===== src/Examples/RelayRuns.antt =====
-- The relay on concrete tokens, requests and messages.
use casuya_live.Common.{
  String, true, false, Option, none, some, [], ◌∷◌, ◌≡◌, refl, ◌≢◌, ◌↔◌, ◌⊎◌, inl, inr,
  ne_of_===-false, All, arith, ◌<>◌,
}
use casuya_live.Js.{member, null, items_of}
use casuya_live.Relay.Token.{issue_admin_token, verify_admin_token}
use casuya_live.Relay.Token.Authentic.{IsAuthentic, verify-issue, verify_iff}
use casuya_live.Relay.Http.{
  Request, Response, bearer_from, handle_token_issue, token_response, posted_secret, received_after,
  serve,
}
use casuya_live.Relay.Http.Access.{serve-independent, handle_token_issue_cases, serve-issued}
use casuya_live.Relay.Http.Stats.{Hash, Reads, replied, handle_stats}
use casuya_live.Relay.Http.Stats.Answers.{Reportable, report, handle_stats_cases}
use casuya_live.Relay.Bus.{
  Env, Socket, admin, anyone, frame, public_channel, is_ledger_channel, deliver, outcomes_hash,
  on_message, upgrades, sockets_run,
}
use casuya_live.Relay.Bus.Privacy.{IsPrivate, on_message-IsPrivate}
use casuya_live.Relay.Bus.Delivery.{sent_to, on_message-due}
use casuya_live.Relay.Bus.Throws.{on_message_throws}
use casuya_live.Relay.Bus.Ledger.{
  added_to, amounts_to, count_results, due_amounts, on_message-Totals,
}
use casuya_live.Examples.Toy.{
  numbers, platform, platform-TokenLaws, platform-HeaderLaws, won_order, lost_order,
  settlement_message,
}

verify-issue_example :
    verify_admin_token numbers platform "key"
      (issue_admin_token numbers platform "key" 1500).token
      5000
    ≡ true
verify-issue_example =
    verify-issue numbers platform platform-TokenLaws "key" 1500 5000 refl (omega arith)
      (omega arith)

verify_iff_example :
    (verify_admin_token numbers platform "key" "i.keyi" 5000 ≡ true)
    ↔ IsAuthentic numbers platform "key" "i.keyi" 5
verify_iff_example = verify_iff numbers platform "key" "i.keyi" 5000

abbrev stats_request : Request
stats_request = record { url = "/api/stats"; method = "GET"; authorization = none }

abbrev answer : String → Response
answer body = record { status = 200; cors = true; json = true; body = body }

not-IsAuthentic :
    ¬ IsAuthentic numbers platform "key" (bearer_from numbers platform stats_request) 5
unfolding bearer_from verify_admin_token
not-IsAuthentic a =
    let accepted =
      (verify_iff numbers platform "key" (bearer_from numbers platform stats_request) 5000).1 a in
    cc

serve-independent_example :
    serve numbers platform "key" true stats_request [] 5000 (answer "a")
    ≡ serve numbers platform "key" true stats_request [] 5000 (answer "b")
serve-independent_example =
    serve-independent numbers platform "key" true stats_request [] 5000 (answer "a") (answer "b")
      not-IsAuthentic

abbrev secret : String
secret = "key"

handle_token_issue_cases_example :
    let given =
      posted_secret numbers platform (received_after numbers platform "" ("sec" ∷ "ret" ∷ [])) in
    let done = handle_token_issue numbers platform "key" ("sec" ∷ "ret" ∷ []) 5000 in
    ((secret ≡ "") × (done.status ≡ 503))
    ⊎ ((secret ≢ "") × (given ≢ secret) × (done.status ≡ 401))
    ⊎ ((secret ≢ "")
        × (given ≡ secret)
        × (done ≡ token_response numbers platform (issue_admin_token numbers platform "key" 5000)))
handle_token_issue_cases_example =
    handle_token_issue_cases numbers platform "key" ("sec" ∷ "ret" ∷ []) 5000

abbrev issued_request : Request
issued_request = record {
  url = "/api/stats";
  method = "GET";
  authorization = some ("Bearer " <> (issue_admin_token numbers platform "key" 1500).token);
}

serve-issued_example :
    serve numbers platform "key" true issued_request [] 5000 (answer "stats") ≡ answer "stats"
serve-issued_example =
    serve-issued numbers platform platform-TokenLaws platform-HeaderLaws "key" 1500 5000
      issued_request (answer "stats") refl (omega arith) (omega arith) refl refl refl

abbrev seen : Hash
seen ch = some "7"

abbrev no_fields : Hash
no_fields k = none

abbrev reads : Reads
reads = replied (record {
  model = no_fields;
  heartbeat = none;
  pnl = no_fields;
  outcomes = no_fields;
  staleness = seen;
})

abbrev no_message : Option String → String
no_message text = "bad features"

handle_stats_cases_example :
    ((p : Reportable numbers platform reads) × (handle_stats numbers platform no_message
          ("matches:live" ∷ [])
          reads
          9000
        ≡ report numbers platform ("matches:live" ∷ []) p.0 9000 p.1))
    ⊎ ((¬ Reportable numbers platform reads)
        × ((handle_stats numbers platform no_message ("matches:live" ∷ []) reads 9000).status
            ≡ 500))
handle_stats_cases_example =
    handle_stats_cases numbers platform no_message ("matches:live" ∷ []) reads 9000

abbrev env : Env
env = record {
  ws_matches_channel = none;
  ws_diag_channel = none;
  ws_pnl_channel = none;
  ws_commands_channel = none;
  ws_extra_channels = none;
}

on_message-IsPrivate_example :
    All
      (IsPrivate numbers platform "key"
        (upgrades 1 "/ws" 1000 ∷ upgrades 2 "/ws?token=i.keyi" 2000 ∷ []))
      (on_message numbers platform env
        (sockets_run numbers platform "key" []
          (upgrades 1 "/ws" 1000 ∷ upgrades 2 "/ws?token=i.keyi" 2000 ∷ []))
        "execution:pnl"
        "settled"
        5000).effects
unfolding public_channel
on_message-IsPrivate_example =
    on_message-IsPrivate numbers platform "key" env
      (upgrades 1 "/ws" 1000 ∷ upgrades 2 "/ws?token=i.keyi" 2000 ∷ []) "execution:pnl" "settled"
      5000 (ne_of_===-false _ _ refl)

abbrev guest : Socket
guest = record { id = 1; role = anyone; is_open = true }

abbrev operator : Socket
operator = record { id = 2; role = admin; is_open = true }

on_message-due_example :
    sent_to 2
      (on_message numbers platform env
        (guest ∷ operator ∷ [])
        "execution:pnl"
        "settled"
        5000).effects
    ≡ frame numbers platform "execution:pnl" settlement_message 5000 ∷ []
on_message-due_example =
    on_message-due numbers platform env (guest ∷ operator ∷ []) operator "execution:pnl" "settled"
      5000 (((λ e. absurd (omega arith)), tt), (tt, tt)) (inr (inl refl))

on_message-Totals_example :
    let done =
      on_message numbers platform env (guest ∷ operator ∷ []) "execution:pnl" "settled" 5000 in
    (done.threw ≡ false)
    × (added_to outcomes_hash "won" done.effects
        ≡ count_results "won" (won_order ∷ lost_order ∷ []))
    × (added_to outcomes_hash "lost" done.effects
        ≡ count_results "lost" (won_order ∷ lost_order ∷ []))
    × (amounts_to outcomes_hash "net" done.effects
        ≡ due_amounts numbers platform (won_order ∷ lost_order ∷ []))
unfolding is_ledger_channel member
on_message-Totals_example =
    on_message-Totals numbers platform env (guest ∷ operator ∷ []) "execution:pnl" "settled" 5000
      settlement_message (items_of (won_order ∷ lost_order ∷ [])) refl refl refl
      ((_, refl), ((_, refl), tt))

on_message_throws_example :
    let done =
      on_message numbers platform env (guest ∷ operator ∷ []) "execution:pnl" "null" 5000 in
    (done.threw ≡ true)
    × (done.threw ≡ true
        → done.effects
          ≡ deliver numbers platform env "execution:pnl"
              (frame numbers platform "execution:pnl" null 5000)
              (guest ∷ operator ∷ []))
unfolding is_ledger_channel
on_message_throws_example =
    on_message_throws numbers platform env (guest ∷ operator ∷ []) "execution:pnl" "null" 5000
