-- ===== src/Keys/Removal.antt =====
-- keys.rs: what removing a key slot leaves.
use server_backup.Common.{
  ◌≡◌, ◌≢◌, refl, sym, ap, ◌∙◌, subst, inl, inr, Bool, true, false, Option, none, some, List, [],
  ◌∷◌, arith, ◌==◌, if◌then◌else◌, length, map, sort_by, Has, Has-sort_by, Bool-cases, Option-cases,
}
use server_backup.Common.Distinct.{
  Distinct, Sub, empty, kept, left_out, Sub-Has, Sub-Distinct, sort_by-Distinct,
}
use server_backup.Common.Texts.{
  Text, Bytes, bytes, text_eq, text_eq_iff, text_eq_refl, text_eq_sound, text_le, contains,
  contains-Has,
}
use server_backup.Common.Errors.{Result, ok, err, key_error, malformed, repo_not_found}
use server_backup.Common.Actions.{>>=-eq_ok, lift, pure, throw, ◌>>=◌}
use server_backup.Backend.{
  Objects, Backend, lookup, store, remove, get, exists, delete, list, keys_under, is_under,
}
use server_backup.Backend.Laws.{
  get-Outcome, put-Outcome, exists_Outcome, list-Outcome, delete-Outcome, Outcome-ok, lookup-store,
  lookup-remove,
}
use server_backup.Keys.{
  Libraries, RepoConfig, or_else, key_key, slot_of, cons_some, slots_of, find_other,
}
use server_backup.Keys.Slots.{
  config_name, read_config, open_any_slot, repoint, remove_slot, key_remove_backend,
}
use server_backup.Keys.Opening.{slot_of-key_key, slot_of-eq_some, open_any_slot-Found}

-- The keys of the objects.
abbrev pub keys_of : Objects → List Text
keys_of m = map (λ p. p.0) m

Sub-keys_under : (prefix : Text) (m : Objects) → Sub (keys_under prefix m) (keys_of m)
unfolding keys_under
Sub-keys_under prefix [] = empty
Sub-keys_under prefix ((k, v) ∷ m) = elim (Bool-cases (is_under prefix k)) [
  | inl e ↦ rw e (kept (Sub-keys_under prefix m))
  | inr e ↦ rw e (left_out (Sub-keys_under prefix m))
]

-- A key of the objects has a value.
pub Has-lookup :
    (key : Text) (m : Objects) → Has key (keys_of m) → (v : Bytes) × (lookup key m ≡ some v)
unfolding lookup
Has-lookup key [] h = absurd h
Has-lookup key ((k, v) ∷ m) h = elim (Bool-cases (text_eq key k)) [
  | inl e ↦ (v, rw e refl)
  | inr e ↦ elim h [
    | inl same ↦ absurd (cc (e, (text_eq_iff key k).1 same))
    | inr later ↦ let (w, at) = Has-lookup key m later in (w, rw e at)
  ]
]

slots_of-Has : (slot : Text) (keys : List Text) → Has slot (slots_of keys) → Has (key_key slot) keys
unfolding slots_of cons_some
slots_of-Has slot [] h = h
slots_of-Has slot (key ∷ keys) h = go (slot_of key) refl h (slots_of-Has slot keys)
  where
    go :
        (o : Option Text)
        → slot_of key ≡ o
        → Has slot (cons_some o (slots_of keys))
        → (Has slot (slots_of keys) → Has (key_key slot) keys)
        → Has (key_key slot) (key ∷ keys)
    go none e k later = inr (later k)
    go (some s) e (inl same) later = inl (ap key_key same ∙ sym (slot_of-eq_some key s e))
    go (some s) e (inr k) later = inr (later k)

slots_of-Distinct : (keys : List Text) → Distinct keys → Distinct (slots_of keys)
unfolding slots_of cons_some Distinct
slots_of-Distinct [] d = tt
slots_of-Distinct (key ∷ keys) (fresh, d) = go (slot_of key) refl (slots_of-Distinct keys d)
  where
    go :
        (o : Option Text)
        → slot_of key ≡ o
        → Distinct (slots_of keys)
        → Distinct (cons_some o (slots_of keys))
    go none e rest = rest
    go (some s) e rest = (
      λ m. fresh (subst (λ k. Has k keys) (sym (slot_of-eq_some key s e)) (slots_of-Has s keys m)),
      rest,
    )

find_other-none :
    (slot s : Text) (slots : List Text) → find_other slot slots ≡ none → Has s slots → s ≡ slot
unfolding find_other
find_other-none slot s [] h m = absurd m
find_other-none slot s (t ∷ slots) h m = elim (Bool-cases (text_eq t slot)) [
  | inl e ↦ elim m [
    | inl same ↦ same ∙ text_eq_sound t slot e
    | inr later ↦ find_other-none slot s slots (rw e at h) later
  ]
  | inr e ↦ let no : some t ≡ none = (rw e at h) in absurd (cc)
]

find_other-some :
    (slot other : Text) (slots : List Text)
    → find_other slot slots ≡ some other
    → Has other slots × (other ≢ slot)
unfolding find_other
find_other-some slot other [] h = absurd (cc)
find_other-some slot other (t ∷ slots) h = elim (Bool-cases (text_eq t slot)) [
  | inl e ↦ let (m, n) = find_other-some slot other slots (rw e at h) in (inr m, n)
  | inr e ↦
      let first : some t ≡ some other = (rw e at h) in
      let same : t ≡ other = cc in
      (inl (sym same), λ k. absurd (cc (e, (text_eq_iff t slot).1 (same ∙ k))))
]

-- Of two slots or more, one is another.
other_slot :
    (slot : Text) (slots : List Text)
    → Distinct slots
    → Has slot slots
    → (length slots == 1) ≡ false
    → (other : Text) × (find_other slot slots ≡ some other)
unfolding Distinct
other_slot slot [] d m n = absurd m
other_slot slot (s ∷ []) d m n = absurd (ground arith)
other_slot slot (s ∷ t ∷ slots) (fresh, d) m n =
    elim (Option-cases (find_other slot (s ∷ t ∷ slots))) [
      | inl e ↦ absurd (
          fresh (
            inl (
              find_other-none slot s _ e (inl refl)
              ∙ sym (find_other-none slot t _ e (inr (inl refl))))))
      | inr found ↦ found
    ]

pub key_key_injective : (s t : Text) → key_key s ≡ key_key t → s ≡ t
key_key_injective s t e =
    let same : some s ≡ some t = sym (slot_of-key_key s) ∙ ap slot_of e ∙ slot_of-key_key t in cc

pub key_key-not_config : (slot : Text) → text_eq (key_key slot) config_name ≡ false
unfolding key_key text_eq
key_key-not_config slot = refl

-- A key file stays, whatever is removed under another slot, and whatever is written to `config`.
other_stays :
    (slot other : Text) (m : Objects) (config : Bytes)
    → other ≢ slot
    → (lookup (key_key other) (remove (key_key slot) m) ≡ lookup (key_key other) m)
      × (lookup (key_key other) (store config_name config (remove (key_key slot) m))
          ≡ lookup (key_key other) m)
other_stays slot other m config differ =
    let apart = not_same (text_eq (key_key other) (key_key slot)) refl in
    let kept_one : lookup (key_key other) (remove (key_key slot) m) ≡ lookup (key_key other) m =
      lookup-remove (key_key slot) (key_key other) m ∙ (rw apart refl) in
    (
      kept_one,
      lookup-store config_name (key_key other) config (remove (key_key slot) m)
          ∙ (rw (key_key-not_config other) kept_one),
    )
  where
    not_same :
        (b : Bool)
        → text_eq (key_key other) (key_key slot) ≡ b
        → text_eq (key_key other) (key_key slot) ≡ false
    not_same false e = e
    not_same true e =
        absurd
          (differ (key_key_injective other slot (text_eq_sound (key_key other) (key_key slot) e)))

slot_goes :
    (slot : Text) (m : Objects) (config : Bytes)
    → (lookup (key_key slot) (remove (key_key slot) m) ≡ none)
      × (lookup (key_key slot) (store config_name config (remove (key_key slot) m)) ≡ none)
slot_goes slot m config =
    let none_left : lookup (key_key slot) (remove (key_key slot) m) ≡ none =
      lookup-remove (key_key slot) (key_key slot) m ∙ (rw (text_eq_refl (key_key slot)) refl) in
    (
      none_left,
      lookup-store config_name (key_key slot) config (remove (key_key slot) m)
          ∙ (rw (key_key-not_config slot) none_left),
    )

module _ (lib : Libraries) where
  pub read_config_ok :
      (b b' : Backend) (config : RepoConfig)
      → read_config lib b ≡ (ok config, b')
      → (raw : Bytes) × (lookup config_name b.objects ≡ some raw)
        × (lib.parse_config raw ≡ some config)
        × (b'.objects ≡ b.objects)
  unfolding read_config or_else
  read_config_ok b b' config h =
      let (there, c, q, k) = >>=-eq_ok (exists config_name) _ b config b' h in
      let (_, objects) = Outcome-ok (exists_Outcome b config_name) q in present there c objects k
    where
      parsed_as : (o : Option RepoConfig) → or_else malformed o ≡ ok config → o ≡ some config
      parsed_as none e = absurd (cc)
      parsed_as (some d) e = ap some (cc)

      present :
          (there : Bool) (c : Backend)
          → c.objects ≡ b.objects
          → ◌≡◌ {A = Result RepoConfig × Backend}
              ((if there
                  then (get config_name >>= λ raw. lift (or_else malformed (lib.parse_config raw)))
                  else throw repo_not_found)
                c)
              (ok config, b')
          → (raw : Bytes) × (lookup config_name b.objects ≡ some raw)
            × (lib.parse_config raw ≡ some config)
            × (b'.objects ≡ b.objects)
      present false c objects k = absurd (cc)
      present true c objects k =
          let (raw, d, q, p) = >>=-eq_ok (get config_name) _ c config b' k in
          let (at, same) = Outcome-ok (get-Outcome c config_name) q in
          (
            raw,
            subst (λ l. lookup config_name l ≡ some raw) objects at,
            parsed_as (lib.parse_config raw) (ap (λ (r : Result RepoConfig × Backend). r.0) p),
            ap (λ (r : Result RepoConfig × Backend). r.1.objects) (sym p) ∙ same ∙ objects,
          )

  -- The objects after a removal.
  abbrev pub after_removal : RepoConfig → Text → Text → Objects → Objects
  after_removal config slot other m =
      if text_eq config.key_slot slot
      then store config_name (lib.config_bytes (record config { key_slot = other }))
          (remove (key_key slot) m)
      else remove (key_key slot) m

  remove_slot_ok :
      (config : RepoConfig) (slot : Text) (slots : List Text) (b b' : Backend)
      → Distinct slots
      → remove_slot lib config slot slots b ≡ (ok tt, b')
      → (other : Text) × Has other slots
        × (other ≢ slot)
        × (b'.objects ≡ after_removal config slot other b.objects)
  unfolding remove_slot repoint
  remove_slot_ok config slot slots b b' d h = elim (Bool-cases (contains slots slot)) [
    | inr e ↦
        let no : ◌≡◌ {A = Result (Unit {0}) × Backend} (err key_error, b) (ok tt, b') =
          (rw e at h) in
        absurd (cc)
    | inl e ↦ elim (Bool-cases (length slots == 1)) [
      | inl one ↦
          let no : ◌≡◌ {A = Result (Unit {0}) × Backend} (err key_error, b) (ok tt, b') =
            (rw (e, one) at h) in
          absurd (cc)
      | inr more ↦
          let (other, found) = other_slot slot slots d (contains-Has slots slot e) more in
          let (m, differ) = find_other-some slot other slots found in
          let (u, c, q, k) = >>=-eq_ok (delete (key_key slot)) _ b tt b' (rw (e, more) at h) in
          let (_, objects) = Outcome-ok (delete-Outcome b (key_key slot)) q in
          (other, m, differ, pointed (text_eq config.key_slot slot) other c found objects k)
    ]
  ]
    where
      pointed :
          (same : Bool) (other : Text) (c : Backend)
          → find_other slot slots ≡ some other
          → c.objects ≡ remove (key_key slot) b.objects
          → ◌≡◌ {A = Result (Unit {0}) × Backend}
              ((if same then repoint lib config (find_other slot slots) else pure tt) c)
              (ok tt, b')
          → b'.objects ≡ (
              if same
              then store config_name
                  (lib.config_bytes (record config { key_slot = other }))
                  (remove (key_key slot) b.objects)
              else remove (key_key slot) b.objects)
      pointed false other c found objects k =
          ap (λ (r : Result (Unit {0}) × Backend). r.1.objects) (sym k) ∙ objects
      pointed true other c found objects k =
          let (_, written) =
            Outcome-ok
              (put-Outcome c config_name (lib.config_bytes (record config { key_slot = other })))
              (rw found at k) in
          written
          ∙ ap (store config_name (lib.config_bytes (record config { key_slot = other }))) objects

  -- When the removal of a slot has returned, its key file is gone and another key file is still there,
  -- as it was. Where the configuration named the removed slot, it now names that other one; no other
  -- object has changed.
  pub key_remove_backend_lem :
      (slot passphrase : Text) (b b' : Backend)
      → Distinct (keys_of b.objects)
      → key_remove_backend lib slot passphrase b ≡ (ok tt, b')
      → (lookup (key_key slot) b'.objects ≡ none)
        × (config : RepoConfig) × (raw : Bytes) × (other : Text) × (file : Bytes) × (lookup
              config_name b.objects
            ≡ some raw)
        × (lib.parse_config raw ≡ some config)
        × (other ≢ slot)
        × (lookup (key_key other) b.objects ≡ some file)
        × (lookup (key_key other) b'.objects ≡ some file)
        × (b'.objects ≡ after_removal config slot other b.objects)
  unfolding key_remove_backend
  key_remove_backend_lem slot passphrase b b' d h =
      let (config, c1, q1, h1) = >>=-eq_ok (read_config lib) _ b tt b' h in
      let (raw, at_config, parsed, same1) = read_config_ok b c1 config q1 in
      let (opened, c2, q2, h2) = >>=-eq_ok (open_any_slot lib config passphrase) _ c1 tt b' h1 in
      let (_, same2) = open_any_slot-Found lib passphrase config c1 c2 opened q2 in
      let (keys, c3, q3, h3) = >>=-eq_ok (list (bytes "keys")) _ c2 tt b' h2 in
      let (listed, same3) = Outcome-ok (list-Outcome c2 (bytes "keys")) q3 in
      let same : c3.objects ≡ b.objects = same3 ∙ same2 ∙ same1 in
      let keys_here : keys ≡ keys_under (bytes "keys") b.objects =
        listed ∙ ap (keys_under (bytes "keys")) (same2 ∙ same1) in
      let distinct : Distinct keys =
        subst Distinct (sym keys_here) (Sub-Distinct (Sub-keys_under (bytes "keys") b.objects) d) in
      let (other, m, differ, done) =
        remove_slot_ok config slot (slots_of (sort_by text_le keys)) c3 b'
          (slots_of-Distinct (sort_by text_le keys) (sort_by-Distinct text_le keys distinct)) h3 in
      let in_keys : Has (key_key other) keys =
        Has-sort_by text_le (key_key other) keys (slots_of-Has other (sort_by text_le keys) m) in
      let (file, at_other) = Has-lookup (key_key other) b.objects (
        Sub-Has (key_key other) (Sub-keys_under (bytes "keys") b.objects)
          (subst (λ l. Has (key_key other) l) keys_here in_keys)) in
      let final : b'.objects ≡ after_removal config slot other b.objects =
        done ∙ ap (after_removal config slot other) same in
      let new_config = lib.config_bytes (record config { key_slot = other }) in
      (
        either (λ l. lookup (key_key slot) l ≡ none) (text_eq config.key_slot slot) final
            (slot_goes slot b.objects new_config).1 (slot_goes slot b.objects new_config).0,
        config,
        raw,
        other,
        file,
        at_config,
        parsed,
        differ,
        at_other,
        either (λ l. lookup (key_key other) l ≡ some file) (text_eq config.key_slot slot) final
            ((other_stays slot other b.objects new_config differ).1 ∙ at_other)
            ((other_stays slot other b.objects new_config differ).0 ∙ at_other),
        final,
      )
    where
      either :
          (P : Objects → Type 0) (c : Bool) {x y : Objects}
          → b'.objects ≡ (if c then x else y)
          → P x
          → P y
          → P b'.objects
      either P true e p q = subst P (sym e) p
      either P false e p q = subst P (sym e) q
