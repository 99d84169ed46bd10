-- ===== src/Control/Retry.antt =====
-- `POST /api/blocklists/apply` of web/server/src/routes/blocklists.js: the reload of the blocklists,
-- tried again while the control server is busy or does not answer.
pub mod Laws
pub mod Outcome
use beyond_ads_dns.Prelude.{ℕ, suc, Option, none, some, List, [], ◌∷◌, nat_eq, if◌then◌else◌}
use beyond_ads_dns.Js.Text.{Text, is_empty}
use beyond_ads_dns.Js.Value.{Value}
use beyond_ads_dns.Control.{
  Link, post, Request, Response, Fetched, failed, answered, is_ok, request, ok_true,
}
use beyond_ads_dns.Routes.Settings.{Reply, ok, refused}

-- What one pass of the loop comes to: a reply, or the reply that is given when no delay is left.
pub data Round : Type 0 where
  finished : Reply Value → Round
  again : Reply Value → Round

-- A body that cannot be read throws into the handler's `catch`, as a failed `fetch` does.
abbrev pub refusal_round : ℕ → Option Text → Round
refusal_round status none = again (refused 500)
refusal_round status (some body) =
    if nat_eq status 429 then again (refused 502) else finished (refused 502)

unfoldable pub round : Fetched → Round
round failed = again (refused 500)
round (answered r) =
    if is_ok r.status then finished (ok ok_true) else refusal_round r.status r.text_body

-- `[4000, 8000, 16000, 32000]`, in milliseconds.
abbrev pub backoff_delays : List ℕ
backoff_delays = 4000 ∷ (8000 ∷ (16000 ∷ (32000 ∷ [])))

abbrev pub last_reply : Round → Reply Value
last_reply (finished r) = r
last_reply (again r) = r

abbrev pub wait_first : ℕ → Round → List ℕ × Reply Value → List ℕ × Reply Value
wait_first delay (finished r) later = ([], r)
wait_first delay (again r) (waits, reply) = (delay ∷ waits, reply)

-- The loop over the attempts that the delays leave; `fetch n` is what attempt n meets. The answer has
-- the waits that were made, and so one attempt more than these.
unfoldable pub attempts : List ℕ → (ℕ → Fetched) → ℕ → List ℕ × Reply Value
unfolding round
attempts [] fetch n = ([], last_reply (round (fetch n)))
attempts (delay ∷ delays) fetch n =
    let later = attempts delays fetch (suc n) in wait_first delay (round (fetch n)) later

-- The request of every attempt, with the waits and the reply.
unfoldable pub apply_blocklists : Link → (ℕ → Fetched) → Option Request × List ℕ × Reply Value
unfolding request attempts
apply_blocklists link fetch = if is_empty link.url then (none, [], refused 400) else (
  some (request link post "/blocklists/reload" none),
  (attempts backoff_delays fetch 0).0,
  (attempts backoff_delays fetch 0).1,
)
