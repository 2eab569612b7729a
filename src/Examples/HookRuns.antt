-- ===== src/Examples/HookRuns.antt =====
-- The signal stream, the session, the URLs, the hooks as a whole, and the panels on concrete input.
use casuya_live.Common.{
  ℕ, ◌≤◌, String, true, false, Option, none, some, List, [], ◌∷◌, ◌≡◌, ◌≢◌, refl, ◌⊎◌, arith, All,
  length, take, if◌then◌else◌, ◌<>◌, ◌===◌,
}
use casuya_live.Js.{
  Value, field, member, member?, number_of, set_field, null, undefined, num, str, object, array,
  items_of, end, Fields, find_field, truthy, string_of, or_else,
}
use casuya_live.Client.Recent.{latest}
use casuya_live.Client.Dashboard.{dashboard_after, console_after}
use casuya_live.Client.Signals.{Event, hears, seeds, fires, same_order, stream_after}
use casuya_live.Client.Signals.Queue.{frames, stream_after-latest}
use casuya_live.Client.Signals.Flash.{stream_after-flash}
use casuya_live.Client.Session.{Storage, get_session_token, save_session_token, clear_session_token}
use casuya_live.Client.Session.Keeping.{get_session_token-save_session_token}
use casuya_live.Client.Urls.{ws_base, resolve_url, resolve_ws_url, resolve_ws_url-resolve_url}
use casuya_live.Client.Hook.{
  HookEvent, opened, closed, due, left, heard, events_heard, dashboard_hook, console_hook,
  signals_hook, hook_after-events_heard,
}
use casuya_live.Client.Panels.{
  prices, elapses, price_up, price_down, chip_after, favourite_of, side_or_none, prices_of,
  no_object, object_values,
}
use casuya_live.Client.Panels.Flashing.{chip_after-first}
use casuya_live.Client.Panels.Favourite.{IsBest, IsOffered, favourite_of-IsBest}
use casuya_live.Client.Drawdown.{
  amounts, max_drawdown, highest, curves, drops, Occurs, IsTop, max_drawdown-IsTop,
}
use casuya_live.Relay.Token.{issue_admin_token, verify_admin_token}
use casuya_live.Relay.Http.{issued_value}
use casuya_live.Relay.Bus.{payload_of}
use casuya_live.Client.Login.{answered, Page, opens, submits, page_step}
use casuya_live.Client.Login.Lasting.{page_step-login}
use casuya_live.Client.Commands.{decode_envelope}
use casuya_live.Client.Commands.Base64.{Digit, letter, plus, slash, decode_envelope-payload_of}
use casuya_live.Client.Desk.{Desk, load, loaded, placed_by, last_with, load-last_with}
use casuya_live.Examples.Toy.{
  numbers, numbers-EqLaws, numbers-LtLaws, platform, platform-SessionLaws, urls, urls-PathLaws,
  platform-TokenLaws, signal, won_order, lost_order,
}

abbrev history : List (Event numbers platform)
history = hears "newer signal" ∷ fires ∷ hears "other signal" ∷ hears "signal" ∷ []

stream_after-latest_example :
    (stream_after numbers platform history).signals
    ≡ take 60 (latest (same_order numbers platform) (frames numbers platform history))
stream_after-latest_example = stream_after-latest numbers platform numbers-EqLaws history tt

abbrev listed : List (Value (Option ℕ))
listed = signal "M1" 2 ∷ signal "M2" 4 ∷ []

stream_after-flash_example :
    let st = stream_after numbers platform (fires ∷ seeds (array listed) ∷ history) in
    (length st.signals ≤ 60) × ((st.timers ≢ []) ⊎ (st.flash ≡ none))
stream_after-flash_example =
    stream_after-flash numbers platform (fires ∷ seeds (array listed) ∷ history)

abbrev empty_storage : Storage
empty_storage = record { defined = true; item = none }

get_session_token-save_session_token_example :
    let saved =
      save_session_token numbers platform empty_storage
        (str "iiiiii.keyiiiiii")
        (num (some 28805))
        5000 in
    get_session_token numbers platform saved 28805000
    ≡ (null, clear_session_token numbers platform saved)
get_session_token-save_session_token_example =
    get_session_token-save_session_token numbers platform platform-SessionLaws empty_storage
      "iiiiii.keyiiiiii" 28805 5000 28805000 refl refl refl (omega arith) (omega arith)

abbrev closed_page : Page (Option ℕ)
closed_page = record { token = null; storage = empty_storage }

page_step-login_example :
    let issued = issue_admin_token numbers platform "key" 5000 in
    let reply = answered true 200 (issued_value numbers platform issued) in
    let page = page_step numbers platform closed_page (submits "null" 5000 reply) in
    (page.token ≡ str issued.token)
    × ((page_step numbers platform page (opens 10000)).token ≡ (
        if verify_admin_token numbers platform "key" issued.token 10000
        then str issued.token
        else null))
unfolding issue_admin_token
page_step-login_example =
    page_step-login numbers platform platform-TokenLaws platform-SessionLaws "null" closed_page
      "key" 5000 5000 10000 refl refl refl (omega arith) (omega arith)

abbrev atob : String → Option String
atob text = if text === "aGk+/w==" then some "fill" else none

-- The digits of aGk-_w.
abbrev digits : List Digit
digits = letter "a" refl ∷ letter "G" refl ∷ letter "k" refl ∷ plus ∷ slash ∷ letter "w" refl ∷ []

decode_envelope-payload_of_example :
    decode_envelope numbers platform atob (payload_of numbers platform "aGk-_w.sig")
    ≡ object (("type", str "bet") ∷ ("market", str "1H_1X2") ∷ [])
decode_envelope-payload_of_example =
    decode_envelope-payload_of numbers platform atob digits "sig" "fill" _ (λ e. cc) (λ e. cc) refl
      refl refl

resolve_ws_url-resolve_url_example :
    (dialled : String × String) × (dialled.0 ≢ "/")
    × (dialled.0 ≢ "")
    × (resolve_url numbers urls "relay" ≡ "wss://relay" <> (dialled.0 <> dialled.1))
    × (resolve_ws_url numbers urls "relay" null ≡ some (resolve_url numbers urls "relay"))
unfolding ws_base truthy
resolve_ws_url-resolve_url_example =
    resolve_ws_url-resolve_url numbers urls urls-PathLaws "relay" null ("/", "") refl

abbrev events : List (HookEvent String)
events = heard "live" ∷ left ∷ heard "later" ∷ opened ∷ due ∷ closed ∷ heard "pnl" ∷ opened ∷ []

abbrev signal_events : List (HookEvent (Event numbers platform))
signal_events =
    heard fires
    ∷ left
    ∷ heard (seeds (array listed))
    ∷ closed
    ∷ heard fires
    ∷ heard (hears "signal")
    ∷ opened
    ∷ []

hook_after-events_heard_example :
    ((dashboard_hook numbers platform true false 0 events).state
      ≡ dashboard_after numbers platform (events_heard events))
    × ((console_hook numbers platform (str "i.keyi") true false 0 events).state
        ≡ console_after numbers platform (events_heard events))
    × ((signals_hook numbers platform true false 0 signal_events).state
        ≡ stream_after numbers platform (events_heard signal_events))
hook_after-events_heard_example =
    hook_after-events_heard numbers platform (str "i.keyi") true false 0 events signal_events

chip_after-first_example :
    (p : Option ℕ) × ((p ≡ some 20) ⊎ ((numbers.eq p (some 20)) ≡ true))
    × ((numbers.eq p (some 25) ≡ true)
        ⊎ ((chip_after numbers (some 20) (prices (some 25) ∷ elapses ∷ prices (some 30) ∷ [])).flash
            ≡ some (if numbers.lt p (some 25) then price_up else price_down)))
chip_after-first_example =
    chip_after-first numbers numbers-EqLaws (some 20) (some 25) (elapses ∷ prices (some 30) ∷ [])

abbrev odds : Value (Option ℕ)
odds = object (("home", num (some 2)) ∷ ("draw", num (some 4)) ∷ ("away", num (some 5)) ∷ [])

abbrev market : Value (Option ℕ)
market = object (("odds", odds) ∷ [])

abbrev match : Value (Option ℕ)
match = object (("markets", object (("2H_1X2", market) ∷ [])) ∷ [])

favourite_of-IsBest_example :
    let offers = prices_of numbers (or_else numbers odds (no_object numbers)) in
    (best : Option (String × Option ℕ)) × (favourite_of numbers match
      ≡ some (side_or_none numbers best))
    × IsOffered numbers offers best
    × All (λ e. IsBest numbers best e.1) offers
unfolding object_values or_else member? member
favourite_of-IsBest_example =
    favourite_of-IsBest numbers numbers-LtLaws match market odds [] refl refl

max_drawdown-IsTop_example :
    (dd : Option ℕ) × (max_drawdown numbers (won_order ∷ lost_order ∷ []) ≡ some dd)
    × ((dd ≡ some 0) ⊎ Occurs numbers dd (drops numbers (some 5 ∷ some 3 ∷ [])))
    × IsTop numbers dd (drops numbers (some 5 ∷ some 3 ∷ []))
    × Occurs numbers
        (highest numbers (curves numbers (some 5 ∷ some 3 ∷ [])))
        (curves numbers (some 5 ∷ some 3 ∷ []))
    × IsTop numbers
        (highest numbers (curves numbers (some 5 ∷ some 3 ∷ [])))
        (curves numbers (some 5 ∷ some 3 ∷ []))
unfolding amounts member truthy number_of
max_drawdown-IsTop_example =
    max_drawdown-IsTop numbers numbers-LtLaws (won_order ∷ lost_order ∷ []) (some 5 ∷ some 3 ∷ [])
      refl

abbrev fresh_desk : Desk (Option ℕ)
fresh_desk = record {
  pnl = null;
  ledger = array [];
  placements = end;
  loading = true;
  error = none;
}

abbrev with_entries : Value (Option ℕ)
with_entries = object (("entries", array (won_order ∷ lost_order ∷ [])) ∷ [])

abbrev placed : Fields (Option ℕ)
placed = field "M1" won_order (field "M2" lost_order end)

load-last_with_example :
    let d =
      (load numbers platform "null" false false fresh_desk
        (loaded null null with_entries with_entries)).0 in
    (d.loading ≡ false)
    × (d.error ≡ none)
    × (d.ledger ≡ array (won_order ∷ lost_order ∷ []))
    × ((k : String)
        → find_field k d.placements
          ≡ last_with numbers platform k undefined (won_order ∷ lost_order ∷ []))
unfolding placed_by set_field member or_else string_of
load-last_with_example =
    load-last_with numbers platform "null" false fresh_desk null null with_entries with_entries
      (array (won_order ∷ lost_order ∷ [])) (items_of (won_order ∷ lost_order ∷ [])) placed refl
      refl refl
