-- ===== src/ChangeFeed/Tests.antt =====
-- A server tells its peer that a pod was deleted.
use superkube.Base.{
  ◌*◌, ◌^◌, ◌≡◌, refl, String, true, false, ◌&&◌, not, none, some, [], ◌∷◌, ◌==◌, if◌then◌else◌,
}
use superkube.ChangeFeed.{
  Values, ChangeEvent, ChangeLog, is_known, matches, replicate, listen, prune_older_than, fetch,
}
use superkube.ChangeFeed.Replication.{listen-replicate}
use superkube.Samples.{calm}
use superkube.Store.Bus.{deleted}

-- JSON values that are texts.
abbrev texts : Values
texts = record { Value = String; null = "null"; to_string = λ s. s; from_str = λ s. some s }

abbrev gone : ChangeEvent texts
gone = record {
  kind = "Pod";
  namespace = some "default";
  name = "web";
  event_type = deleted;
  object = "{}";
}

abbrev empty_log : ChangeLog
empty_log = record { drawn = 0; statements = 0; rows = []; notified = [] }

listen-replicate_example :
    (log' : ChangeLog) × (replicate texts calm "a" gone empty_log ≡ (true, log'))
    × (log'.notified ≡ 100 ∷ [])
    × (listen texts "b" 100 log'
        ≡ (if not ("a" == "b") && is_known gone.kind then some gone else none))
listen-replicate_example = listen-replicate texts calm "a" "b" gone empty_log refl refl refl refl

-- A watcher of the namespace gets it, one of another namespace does not.
watched :
    (matches texts (record { kind = "Pod"; namespace = some "default" }) gone ≡ true)
    × (matches texts (record { kind = "Pod"; namespace = some "team" }) gone ≡ false)
unfolding matches
watched = (refl, refl)

-- After the time to live the row is gone.
pruned :
    fetch 100 (prune_older_than (301 * 10 ^ 9) 300 (replicate texts calm "a" gone empty_log).1)
    ≡ none
unfolding fetch prune_older_than replicate
pruned = refl
