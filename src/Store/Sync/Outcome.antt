-- ===== src/Store/Sync/Outcome.antt =====
-- What one event leaves in the map of its collection.
use agamemnon.Base.{
  String, ◌≡◌, refl, Bool, true, false, Option, none, some, arith, if◌then◌else◌, str_eq,
  str_eq_iff,
}
use agamemnon.Base.Dict.{lookup, insert, lookup-insert}
use agamemnon.Base.Exec
use agamemnon.Json.{JsonLibrary}
use agamemnon.Store.{Store, GithubClient, MetricCall, record_metric}
use agamemnon.Store.Collections.{
  Collection, agents, teams, tasks, faults, label, entities, put, is_loaded, ensure_loaded,
  pick_collection,
}
use agamemnon.Store.Sync
use agamemnon.Store.Sync.{is_stale, read_event, apply_github_event, skips, edit, settle, apply_read}

-- An event about one issue, other than a removal.
pub record Edit (Json : Type 0) : Type 0 where
  pub action : String
  pub issue : Json
  pub updated_at : String

-- An action that is handled as an edit.
abbrev pub Edits : String → Type 0
Edits action = (str_eq action "closed" ≡ false) × (str_eq action "reopened" ≡ false)

module _ (J : JsonLibrary) (client : GithubClient J.Json) where
  open J use {Json, set, string}
  open client use {Github}

  abbrev S : Type 0
  S = Store Json Github

  entities-put :
      (c : Collection) (id : String) (e : Json) (s : S)
      → entities c (put c id e s) ≡ insert id e (entities c s)
  entities-put agents id e s = refl
  entities-put teams id e s = refl
  entities-put tasks id e s = refl
  entities-put faults id e s = refl

  is_loaded-put :
      (c : Collection) (id : String) (e : Json) (s : S) → is_loaded c (put c id e s) ≡ is_loaded c s
  is_loaded-put agents id e s = refl
  is_loaded-put teams id e s = refl
  is_loaded-put tasks id e s = refl
  is_loaded-put faults id e s = refl

  entities-record_metric :
      (c : Collection) (call : MetricCall) (s : S)
      → (entities c (record_metric call s) ≡ entities c s)
        × (is_loaded c (record_metric call s) ≡ is_loaded c s)
  entities-record_metric agents call s = ground arith
  entities-record_metric teams call s = ground arith
  entities-record_metric tasks call s = ground arith
  entities-record_metric faults call s = ground arith

  -- What is held under an id after an edit of it.
  abbrev pub settled : String → Json → Option Json → Option Bool → Option Json
  settled updated_at e held none = held
  settled updated_at e held (some true) = held
  settled updated_at e held (some false) = some (set e "updatedAt" (string updated_at))

  -- What is held under an id after an event.
  abbrev pub held_after :
      String → String → Option (Option (String × Json)) → Option Json → Option Json
  held_after id updated_at none held = held
  held_after id updated_at (some none) held = held
  held_after id updated_at (some (some (other, e))) held =
      if str_eq other id then settled updated_at e held (skips J client updated_at held) else held

  settle-lem :
      (c : Collection) (updated_at other id : String) (e : Json) (o : Option Bool) (s : S)
      → (lookup id (entities c (Exec.continue o (settle J client c updated_at other e) s).1) ≡ (
          if str_eq other id
          then settled updated_at e (lookup other (entities c s)) o
          else lookup id (entities c s)))
        × (is_loaded c (Exec.continue o (settle J client c updated_at other e) s).1 ≡ is_loaded c s)
  settle-lem c updated_at other id e none s = ground (arith, str_eq_iff other id)
  settle-lem c updated_at other id e (some true) s = ground (
    arith,
    str_eq_iff other id,
    entities-record_metric c (MetricCall.inbound_sync "skipped_stale") s,
  )
  settle-lem c updated_at other id e (some false) s =
      let e' = set e "updatedAt" (string updated_at) in
      ground (
        arith,
        lookup-insert other id e' (entities c s),
        entities-put c other e' s,
        is_loaded-put c other e' s,
        entities-record_metric c (MetricCall.inbound_sync "applied") (put c other e' s),
      )

  -- What is known of the store after an event: what is held under each id, and that it is loaded.
  abbrev pub Outcome : Collection → String → Option Json → S → Type 0
  Outcome c id held s = (lookup id (entities c s) ≡ held) × (is_loaded c s ≡ true)

  apply_read-lem :
      (c : Collection) (action updated_at id : String) (o : Option (String × Json)) (s : S)
      → Edits action
      → is_loaded c s ≡ true
      → Outcome c id
          (held_after id updated_at (some o) (lookup id (entities c s)))
          (apply_read J client c action updated_at o s).1
  apply_read-lem c action updated_at id none s h loaded = (refl, loaded)
  apply_read-lem c action updated_at id (some (other, e)) s (h, h') loaded =
      let stale = skips J client updated_at (lookup other (entities c s)) in
      ground (arith, h, h', settle-lem c updated_at other id e stale s, str_eq_iff other id)

  ensure_loaded_lem :
      (c : Collection) (s : S) → is_loaded c s ≡ true → ensure_loaded J client c s ≡ (some tt, s)
  unfolding ensure_loaded
  ensure_loaded_lem c s h = rw h

  pick-label : (c : Collection) → pick_collection (label c) ≡ some c
  unfolding pick_collection
  pick-label agents = refl
  pick-label teams = refl
  pick-label tasks = refl
  pick-label faults = refl

  apply_event_in :
      (c : Collection) (action updated_at id : String) (o : Option (Option (String × Json))) (s : S)
      → Edits action
      → is_loaded c s ≡ true
      → Outcome c id
          (held_after id updated_at o (lookup id (entities c s)))
          (Exec.continue o (apply_read J client c action updated_at) s).1
  apply_event_in c action updated_at id none s h loaded = (refl, loaded)
  apply_event_in c action updated_at id (some o) s h loaded =
      apply_read-lem c action updated_at id o s h loaded

  pub apply_github_event_lem :
      (c : Collection) (ed : Edit Json) (id : String) (s : S)
      → Edits ed.action
      → is_loaded c s ≡ true
      → Outcome c id
          (held_after id ed.updated_at (read_event J client ed.issue) (lookup id (entities c s)))
          (apply_github_event J client (label c) ed.action ed.issue ed.updated_at s).1
  unfolding apply_github_event
  apply_github_event_lem c ed id s h loaded =
      rw (pick-label c, Sync.apply_to, ensure_loaded_lem c s loaded)
        (apply_event_in c ed.action ed.updated_at id (read_event J client ed.issue) s h loaded)
