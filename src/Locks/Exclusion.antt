-- ===== src/Locks/Exclusion.antt =====
-- Mutual exclusion by lib/runtime/lock-manager.js.
use node_red_contrib_mavlink.Common.{
  ℕ, ◌≡◌, refl, ◌≢◌, true, false, Option, none, some, Eq, arith, ==_refl,
}
use node_red_contrib_mavlink.JsMap.{get, has, set, delete}
use node_red_contrib_mavlink.JsMap.Laws.{
  Keyed, beq_refl, get-set_self, has-set, set-Keyed, has-delete, delete-Keyed, has-delete_other,
}
use node_red_contrib_mavlink.Locks.{
  Lock, LockTable, Owner, unknown, named, or_unknown, other_owner, acquire, release, release_lock,
  is_held,
}

-- The owner's own release passes the owner test.
not-other_owner : (o : Option ℕ) → other_owner o (some (or_unknown o)) ≡ false
not-other_owner none = refl
not-other_owner (some n) = rw ==_refl

refused : (n : ℕ) (h : Owner) → h ≢ named n → other_owner (some n) (some h) ≡ true
refused n unknown d = refl
refused n (named m) d = ground arith

module _ {K : Type 0} ⦃e : Eq K⦄ where
  -- While a key is held nobody can acquire it, with any owner; and a key that is free can be
  -- acquired, after which it is held and every other key is held as before.
  pub acquire_exclusive :
      (key : K) (owner : Option ℕ) (locks : LockTable K)
      → (is_held key locks ≡ true → acquire key owner locks ≡ none)
        × (is_held key locks ≡ false
            → (l : Lock K) × (t : LockTable K) × (acquire key owner locks ≡ some (l, t))
              × (is_held key t ≡ true)
              × ((j : K) → e.beq key j ≡ false → is_held j t ≡ is_held j locks))
  unfolding acquire is_held
  acquire_exclusive key owner locks = (
    λ h. rw h,
    λ h. (
      record { key = key; owner = owner },
      set locks key (or_unknown owner),
      rw h,
      rw (has-set locks key key (or_unknown owner), beq_refl key),
      λ j d. rw (has-set locks key j (or_unknown owner), d),
    ),
  )

  acquire-some :
      (key : K) (owner : Option ℕ) (locks t : LockTable K) (l : Lock K)
      → acquire key owner locks ≡ some (l, t)
      → (has locks key ≡ false)
        × (l ≡ record { key = key; owner = owner })
        × (t ≡ set locks key (or_unknown owner))
  unfolding acquire
  acquire-some key owner locks t l h = ground arith

  release-set :
      (key : K) (owner : Option ℕ) (locks : LockTable K)
      → release key owner (set locks key (or_unknown owner))
        ≡ (true, delete (set locks key (or_unknown owner)) key)
  unfolding release
  release-set key owner locks = rw (
    has-set locks key key (or_unknown owner),
    beq_refl key,
    get-set_self locks key (or_unknown owner),
    not-other_owner owner,
  )

  freed :
      (key j : K) (owner : Option ℕ) (locks : LockTable K)
      → Keyed locks
      → let t = (release key owner (set locks key (or_unknown owner))).1 in
        (is_held key t ≡ false) × (e.beq key j ≡ false → is_held j t ≡ is_held j locks) × Keyed t
  unfolding is_held
  freed key j owner locks keyed =
      let t : LockTable K = set locks key (or_unknown owner) in
      let k : Keyed t = set-Keyed locks key (or_unknown owner) keyed in
      rw (release-set key owner locks) (
        has-delete t key k,
        λ d. rw (has-delete_other t key j d, has-set locks key j (or_unknown owner), d),
        delete-Keyed t key k,
      )

  -- Releasing a lock that was acquired in a table with distinct keys frees its key and no other, and
  -- leaves the keys distinct.
  pub release_lock-acquire :
      (key j : K) (owner : Option ℕ) (locks t : LockTable K) (l : Lock K)
      → Keyed locks
      → acquire key owner locks ≡ some (l, t)
      → (is_held key (release_lock l t) ≡ false)
        × (e.beq key j ≡ false → is_held j (release_lock l t) ≡ is_held j locks)
        × Keyed (release_lock l t)
  release_lock-acquire key j owner locks t l keyed h =
      let (_, lock, table) = acquire-some key owner locks t l h in
      rw (lock, table) (freed key j owner locks keyed)

  -- Only the holder's owner name, or a release that gives none, frees a key.
  pub release_other :
      (key : K) (n : ℕ) (holder : Owner) (locks : LockTable K)
      → get locks key ≡ some holder
      → holder ≢ named n
      → release key (some n) locks ≡ (false, locks)
  unfolding release
  release_other key n holder locks g d = rw (g, refused n holder d) (ground arith)
