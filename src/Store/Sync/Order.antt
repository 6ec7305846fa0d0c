-- ===== src/Store/Sync/Order.antt =====
-- Edits that arrive from GitHub in any order: the latest one wins.
use agamemnon.Base.{
  String, ◌≡◌, refl, inl, inr, Bool, true, false, List, [], ◌∷◌, ◌++◌, Option, none, some, arith,
  str_eq, str_eq_iff, Bool-cases, All, subst, sym,
}
use agamemnon.Base.Dict.{lookup}
use agamemnon.Base.Order.{text_ltb, text_ltb_irrefl, text_ltb_trans}
use agamemnon.Json.{JsonLibrary, value_string, value_string-set, IsObject}
use agamemnon.Store.{Store, GithubClient}
use agamemnon.Store.ByBrief.{is_empty}
use agamemnon.Store.Collections.{Collection, label, entities, is_loaded}
use agamemnon.Store.Sync.{is_stale, read_event, apply_github_event, skips}
use agamemnon.Store.Sync.Names.{read_event-Names}
use agamemnon.Store.Sync.Outcome.{Edit, Edits, held_after, settled, apply_github_event_lem}

module _ (J : JsonLibrary) (client : GithubClient J.Json) where
  open J use {Json, set, string}
  open client use {Github}

  abbrev S : Type 0
  S = Store Json Github

  -- The store after the events, the first of the list first.
  unfoldable pub apply_edits : Collection → List (Edit Json) → S → S
  unfolding apply_github_event
  apply_edits c [] s = s
  apply_edits c (ed ∷ eds) s =
      apply_edits c eds (apply_github_event J client (label c) ed.action ed.issue ed.updated_at s).1

  -- An edit that is older than `updated_at`, where it is about that id.
  pub record IsOlder (id updated_at : String) (ed : Edit Json) : Type 0 where
    pub edits : Edits ed.action
    pub older :
        (e : Json)
        → read_event J client ed.issue ≡ some (some (id, e))
        → (is_empty ed.updated_at ≡ false) × (text_ltb ed.updated_at updated_at ≡ true)

  -- The held entity, if there is one, is readable and older.
  abbrev pub IsBehind : String → Option Json → Type 0
  IsBehind updated_at none = Unit
  IsBehind updated_at (some held) =
      (local : String) × (value_string J held "updatedAt" "" ≡ some local)
      × (is_stale local updated_at ≡ false)

  -- What `IsOlder` says of the event that was read, with the entity an object.
  abbrev Older : String → String → String → Option (Option (String × Json)) → Type 0
  Older id t t' o =
      (e : Json)
      → o ≡ some (some (id, e))
      → IsObject J e × (is_empty t' ≡ false) × (text_ltb t' t ≡ true)

  -- An older edit leaves the held entity behind.
  settled-IsBehind :
      (t t' : String) (e : Json) (held : Option Json) (o : Option Bool)
      → IsObject J e
      → text_ltb t' t ≡ true
      → IsBehind t held
      → IsBehind t (settled J client t' e held o)
  unfolding is_stale
  settled-IsBehind t t' e held none object h behind = behind
  settled-IsBehind t t' e held (some true) object h behind = behind
  settled-IsBehind t t' e held (some false) object h behind =
      (t', value_string-set J e "updatedAt" t' "" object, ground (arith, h))

  Older-IsBehind :
      (id t t' : String) (o : Option (Option (String × Json))) (held : Option Json)
      → Older id t t' o
      → IsBehind t held
      → IsBehind t (held_after J client id t' o held)
  Older-IsBehind id t t' none held older h = h
  Older-IsBehind id t t' (some none) held older h = h
  Older-IsBehind id t t' (some (some (other, e))) held older h =
      elim (Bool-cases (str_eq other id)) [
        | inl same ↦
            let facts = older e (cc ((str_eq_iff other id).0 same)) in
            rw same (settled-IsBehind t t' e held (skips J client t' held) facts.0 facts.2 h)
        | inr differs ↦ rw differs h
      ]

  newer_not_before : (t t' : String) → text_ltb t' t ≡ true → text_ltb t t' ≡ false
  newer_not_before t t' h = ground (arith, text_ltb_trans t t' t, text_ltb_irrefl t)

  -- An older edit leaves the winner where it is.
  Older-skipped :
      (id t t' : String) (o : Option (Option (String × Json))) (winner : Json)
      → is_empty t ≡ false
      → value_string J winner "updatedAt" "" ≡ some t
      → Older id t t' o
      → held_after J client id t' o (some winner) ≡ some winner
  unfolding is_stale
  Older-skipped id t t' none winner full stamp older = refl
  Older-skipped id t t' (some none) winner full stamp older = refl
  Older-skipped id t t' (some (some (other, e))) winner full stamp older =
      elim (Bool-cases (str_eq other id)) [
        | inl same ↦
            let facts = older e (cc ((str_eq_iff other id).0 same)) in
            ground (arith, same, full, stamp, facts, newer_not_before t t')
        | inr differs ↦ rw differs
      ]

  -- The newest edit is applied.
  newest_applied :
      (id t : String) (e : Json) (held : Option Json)
      → is_empty t ≡ false
      → IsBehind t held
      → held_after J client id t (some (some (id, e))) held ≡ some (set e "updatedAt" (string t))
  newest_applied id t e none full h = ground (arith, str_eq_iff id id)
  newest_applied id t e (some held) full (local, stamp, fresh) =
      ground (arith, str_eq_iff id id, full, stamp, fresh)

  event-Older :
      (id t : String) (ed : Edit Json)
      → IsOlder id t ed
      → Older id t ed.updated_at (read_event J client ed.issue)
  event-Older id t ed older e read =
      let (dated, earlier) = older.older e read in
      ((read_event-Names J client ed.issue read).object, dated, earlier)

  after_older :
      (c : Collection) (id t : String) (winner : Json) (eds : List (Edit Json)) (s : S)
      → is_empty t ≡ false
      → value_string J winner "updatedAt" "" ≡ some t
      → All (IsOlder id t) eds
      → is_loaded c s ≡ true
      → lookup id (entities c s) ≡ some winner
      → lookup id (entities c (apply_edits c eds s)) ≡ some winner
  unfolding apply_edits
  after_older c id t winner [] s full stamp older loaded held = held
  after_older c id t winner (ed ∷ eds) s full stamp (first, others) loaded held =
      let (next, loaded') = apply_github_event_lem J client c ed id s first.edits loaded in
      after_older c id t winner eds _ full stamp others loaded' (
        ground (
          arith,
          next,
          held,
          Older-skipped id t ed.updated_at (read_event J client ed.issue) winner full stamp
              (event-Older id t ed first),
        ))

  -- An edit that is later than the held entity and than every other edit of that id is what is held
  -- in the end, wherever it stands among them.
  pub newest_wins :
      (c : Collection) (id : String) (e : Json) (before after : List (Edit Json)) (ed : Edit Json)
      (s : S)
      → read_event J client ed.issue ≡ some (some (id, e))
      → Edits ed.action
      → is_empty ed.updated_at ≡ false
      → All (IsOlder id ed.updated_at) before
      → All (IsOlder id ed.updated_at) after
      → is_loaded c s ≡ true
      → IsBehind ed.updated_at (lookup id (entities c s))
      → lookup id (entities c (apply_edits c (before ++ (ed ∷ after)) s))
        ≡ some (set e "updatedAt" (string ed.updated_at))
  unfolding apply_edits
  newest_wins c id e [] after ed s read edits full older older' loaded behind =
      let (next, loaded') = apply_github_event_lem J client c ed id s edits loaded in
      let object = (read_event-Names J client ed.issue read).object in
      after_older c id ed.updated_at _ after _ full
        (value_string-set J e "updatedAt" ed.updated_at "" object) older' loaded'
        (ground (
          arith,
          next,
          read,
          newest_applied id ed.updated_at e (lookup id (entities c s)) full behind,
        ))
  newest_wins c id e (first ∷ before) after ed s read edits full (older, others) older' loaded
        behind =
      let (next, loaded') = apply_github_event_lem J client c first id s older.edits loaded in
      newest_wins c id e before after ed _ read edits full others older' loaded' (
        subst (IsBehind ed.updated_at) (sym next) (
          Older-IsBehind id ed.updated_at first.updated_at (read_event J client first.issue) _
            (event-Older id ed.updated_at first older) behind))
