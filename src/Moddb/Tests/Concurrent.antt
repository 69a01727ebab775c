-- ===== src/Moddb/Tests/Concurrent.antt =====
-- Runs of package moddb with several goroutines: a shared flight that its first caller leaves, and
-- results that arrive out of order.
use vintagestory_go.Base.{
  ℕ, ◌≡◌, ◌⊎◌, refl, none, some, List, [], ◌∷◌, ◌++◌, text, if◌then◌else◌, ◌==◌,
}
use vintagestory_go.Vshttp.Errors.{Sentinel, nil, sentinel}
use vintagestory_go.Vshttp.Json.{Result, ok, err}
use vintagestory_go.Moddb.Types.{Mod, ModDetails}
use vintagestory_go.Moddb.Client.{Client, fetch_mods, list_operation}
use vintagestory_go.Moddb.Client.Flights.{
  World, look, enter, finish, deliver, receive, cancel, leave, waiting, ready, returned, idle,
  running, set_caller, end_context, after_fetch, offer, step, initial, Reach, here, next,
}
use vintagestory_go.Moddb.Client.Flights.Log.{Log, log_of, IsLatest, IsServed, IsLeft}
use vintagestory_go.Moddb.Client.Flights.Interleavings.{returned-IsServed}
use vintagestory_go.Moddb.Client.Flights.Progress.{rest_of, IsAnswered, waiting-IsAnswered}
use vintagestory_go.Moddb.Client.Details.{keep_details}
use vintagestory_go.Moddb.Answer.{Visit, Lookups, enrich_from}
use vintagestory_go.Moddb.Answer.Arrivals.{collect_results, unlooked, Reordered, swap, Alike}
use vintagestory_go.Moddb.Answer.Arrivals.Sequence.{numbered, lookups_of, collect_results-enrich}
use vintagestory_go.Moddb.Tests.{calling, env, empty, answers, mods, carts, details}

-- Two callers miss the cache and share a flight; the context of the one that started it ends, and it leaves; the flight ends,
-- and the other one has its reply.
abbrev missed : World
missed = set_caller (set_caller (initial env empty) 0 (ready [])) 1 (ready [])

abbrev flying : World
flying =
    record (set_caller (record (set_caller missed 0 waiting) { flight = running [] }) 1 waiting) {
      flight = running [];
    }

abbrev alone : World
alone =
    set_caller (end_context flying 0 (sentinel Sentinel.canceled)) 0
      (returned ([], sentinel Sentinel.canceled))

abbrev landed : World
landed = record (after_fetch alone [] 10 (ok mods)) {
  flight = idle;
  callers = λ i. offer (mods, nil) (alone.callers i);
}

abbrev taken : World
taken = set_caller landed 1 (returned (mods, nil))

missed-Reach : Reach env empty missed
unfolding step calling
missed-Reach = next (next here (look 0 5) refl) (look 1 5) refl

flying-Reach : Reach env empty flying
unfolding step
flying-Reach = next (next missed-Reach (enter 0) refl) (enter 1) refl

alone-Reach : Reach env empty alone
unfolding step
alone-Reach = next (next flying-Reach (cancel 0 (sentinel Sentinel.canceled)) refl) (leave 0) refl

taken-Reach : Reach env empty taken
unfolding step calling
taken-Reach = next (next (next alone-Reach (finish 10 answers) refl) deliver refl) (receive 1) refl

abbrev noted : Log
noted = log_of env empty taken-Reach

returned-IsServed_example :
    (IsServed noted.catalogs (noted.callers 1) (mods, nil) ⊎ IsLeft (taken.contexts 1) (mods, nil))
    × IsLatest noted.catalogs taken.client
returned-IsServed_example = returned-IsServed env empty taken 1 (mods, nil) taken-Reach refl

fetched_mods :
    fetch_mods env flying.client
      (list_operation env)
      (flying.client.base_url ++ text "/mods")
      answers
    ≡ some (ok mods)
unfolding calling
fetched_mods = refl

waiting-IsAnswered_example : IsAnswered env flying (rest_of (running []) 10 answers) 0 1
waiting-IsAnswered_example =
    waiting-IsAnswered env empty flying 10 answers (ok mods) 0 1 flying-Reach fetched_mods refl refl

-- The lookups of one page: the second result arrives first, and the first one is an error.
abbrev visit_of : ℕ → Visit
visit_of i = record {
  now = 5;
  later = 10;
  interrupt = if i == 0 then some (sentinel Sentinel.canceled) else none;
  rounds = answers;
}

abbrev page : List Mod
page = record carts { id = text "1" } ∷ carts ∷ []

abbrev results : List (Result ModDetails)
results = err (sentinel Sentinel.canceled) ∷ ok details ∷ []

abbrev visited : Client
visited = keep_details env empty (text "1") details 10

looked_up : lookups_of env visit_of 0 empty page ≡ some (visited, results)
unfolding calling lookups_of
looked_up = refl

arrived :
    Reordered (numbered results) ((1, ok details) ∷ (0, err (sentinel Sentinel.canceled)) ∷ [])
unfolding numbered
arrived = swap (0, err (sentinel Sentinel.canceled)) (1, ok details) [] refl

collect_results-enrich_example :
    (l : Lookups) × (enrich_from env visit_of 0 empty page ≡ some (visited, l))
    × Alike
        (collect_results
          (unlooked page)
          ((1, ok details) ∷ (0, err (sentinel Sentinel.canceled)) ∷ []))
        l
collect_results-enrich_example =
    collect_results-enrich env visit_of page empty visited results
      ((1, ok details) ∷ (0, err (sentinel Sentinel.canceled)) ∷ []) looked_up arrived
