-- ===== src/Lib.antt =====
-- casuya-live: the live relay, the vendor simulator and the browser's hooks.
--
-- The program. Ingestors, analytics and the executor publish JSON on channels of Redis. The relay,
-- web-interface-js/backend/server.js, sends each message to the WebSockets of the browsers: those
-- that were upgraded with an admin token get every channel, the others only the match feed. It also
-- issues the tokens, counts settled outcomes into a ledger of Redis, and answers GET /api/stats from
-- it. The vendor simulator, mock-vendor/server.js, streams a match to an ingestor, takes signed
-- orders from the executor, and publishes a settlement of all orders at full time. The hooks of
-- web-interface-js/frontend/src/hooks keep one socket, to the relay or to the engine, and fold its
-- frames into the state that the pages show; the operator logs in at the relay and keeps the token
-- in the browser's storage.
--
-- The files.
--   Common, Common/*     shared names, Boolean tests, lists counted by native numbers, text by its
--                        characters, and String(n) of whole numbers.
--   Js, Js/*             what components render (Js/Html), and the language: dynamic values with
--                        undefined and the TypeError of a member of it, truth, String(v),
--                        Number(v), ===; numbers (Float) and the host's functions (Runtime: JSON,
--                        HMAC, base64url, URL queries, dates) are parameters, with the laws that a
--                        theorem relies on as records.
--   Relay/Token          safeEqual, issueAdminToken, verifyAdminToken; Relay/Token/Authentic proves.
--   Relay/Http           bearerFrom, sendJson, the request listener (serve), handleTokenIssue;
--                        Relay/Http/Access proves. Relay/Http/Stats is handleStats, with what Redis
--                        replies as an argument; Relay/Http/Stats/Answers proves.
--   Relay/Bus            the upgrade with its role, WS_CHANNELS, and the subscriber callback of main
--                        (on_message): its result is the list of what it sends and asks of Redis, in
--                        order, and whether an exception left it. Relay/Bus/Privacy, Delivery,
--                        Ledger and Throws prove; histories of the sockets are lists of events.
--   Relay/History        main's subscriptions over a history: what the callbacks write into Redis and
--                        handleStats reads from there; Redis is a parameter. Relay/History/Counts,
--                        Report and Freshness prove.
--   Vendor/Book          the book of orders and the trade server: trade_message is the message
--                        listener, publish_settlement is publishSettlement. Vendor/Book/Conserve and
--                        Answers prove, over lists of messages and settlements.
--   Vendor/Script        TEMPLATE, SCORELINES and SCENARIO_WEIGHTS.
--   Vendor/Feed          pickScenario, frame, and the timer (tick).
--                        Vendor/Feed/Table, Timer and Lifetime prove. Vendor/Routes is the upgrade
--                        routing.
--   Vendor/Simulator     the whole simulator: the feeds of all ingestors and the trade server over one
--                        book, as a step on events; Vendor/Simulator/Whole, Growth and Settled prove.
--   Client/Link          the connection of the hooks with its retries, as a step relation; whether
--                        WebSocket takes the address is an argument.
--   Client/Recent        the bounded list without duplicates of keys, and what it stands for.
--   Client/Dashboard     onmessage of useWebSockets and useAdminWebSockets;
--                        Client/Dashboard/Window proves.
--   Client/Signals       useSignalStream: onmessage, seedSignals and the timers of the flash;
--                        Client/Signals/Queue and Flash prove.
--   Client/Hook          the three hooks as a whole: connection, state, and for the signal stream
--                        seedSignals and the flash.
--   Client/Session       lib/session.js: the stored session; Client/Session/Keeping proves.
--   Client/Urls          resolveUrl, resolveWsUrl, apiBase, engineWsUrl; the class URL is a parameter.
--   Client/Login         components/AdminLogin.jsx, the session of app/admin/page.jsx and the poll of
--                        components/ModelAccuracyPanel.jsx; Client/Login/Lasting proves.
--   Client/Commands      decodePayload and decodeEnvelope of components/CommandsLog.jsx; atob is a
--                        parameter. Client/Commands/Base64 proves.
--   Client/Desk          app/signals/page.jsx: load, pending and handlePlace.
--   Client/Panels        components/LiveBetsGrid.jsx: favouriteOf, hasValue, presence and the effect of
--                        PriceChip; Client/Panels/Favourite and Flashing prove.
--   Client/Views/Matches what LiveBetsGrid.jsx renders; Client/Views/Matches/Cards and Blank prove.
--   Client/Views/Tickets what SignalGrid.jsx renders; Client/Views/Tickets/Buttons proves.
--   Client/Views/Execution  what ExecutionPanel.jsx renders; Client/Views/Execution/Badges and Tallied
--                        prove.
--   Client/Views/Profit  what PnLTracker.jsx renders; Client/Views/Profit/Rows proves.
--   Client/Views/Logs    what DiagnosticsLog.jsx and CommandsLog.jsx render; Client/Views/Logs/Audits
--                        proves.
--   Client/Views/Accuracy what ModelAccuracyPanel.jsx renders, with its metrics in Client/Views/Fit;
--                        Client/Views/Accuracy/Plain, Fresh and Served prove.
--   Client/Formats       signed, scoreOrDash, timeAgo, copyPayload, severityClass, severityLabel and
--                        pct of components/*.jsx.
--   Client/Drawdown      maxDrawdown of components/PnLTracker.jsx.
--   Examples             a small platform (Examples/Toy) on which the theorems are applied.
--
-- Bounds and fuel. Seconds are below 2^53 where a theorem asks that whole numbers are exact doubles.
-- String(n) runs on fuel n + 1, which is enough, since each digit divides the number by ten: the text
-- determines the number (decimal_injective). Nothing else runs on fuel. Lengths of the hooks' lists
-- are those of the source.
--
-- Not modelled. A callback reads the clock once here, and in the source once for each field that
-- wants it. The console, the process's signals and the start-up are left out, and so are objects of
-- JSON whose own keys shadow the methods of Object.prototype (a toString or a __proto__ in a
-- message, or the name of such a method in MOCK_SCENARIO). A rejected command of Redis is dropped
-- by the source, and is an effect like any other here. What the pages and the login form
-- render is left out, and so are inline styles that do not depend on the data, keys and the
-- functions that handle clicks. The Go and Python programs meet this code only by messages. Entries
-- of a list that the engine answers are objects where the signal queue and the filter of pending
-- orders read them.

pub mod Common
pub mod Js
pub mod Relay
pub mod Vendor
pub mod Client
pub mod Examples
