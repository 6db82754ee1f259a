-- ===== src/Locks.antt =====
-- lib/runtime/lock-manager.js: the class LockManager, over any type of keys. An owner is a number;
-- `none` is an owner that was not given. An acquired lock is its key and owner.
pub mod Exclusion
pub mod Examples
use node_red_contrib_mavlink.Common.{
  ℕ, Bool, true, false, not, Option, none, some, List, [], Eq, nat_eq, ◌==◌, if◌then◌else◌,
}
use node_red_contrib_mavlink.JsMap.{get, has, set, delete}

-- The owner that `owner || 'unknown'` stores.
pub data Owner : Type 0 where
  unknown : Owner
  named : ℕ → Owner

-- `_locks`, from keys to owners.
abbrev pub LockTable : Type 0 → Type 0
LockTable K = List (K × Owner)

-- What `acquire` returns, for its `release`.
pub record Lock (K : Type 0) : Type 0 where
  pub key : K
  pub owner : Option ℕ

abbrev pub or_unknown : Option ℕ → Owner
or_unknown none = unknown
or_unknown (some n) = named n

-- `owner !== undefined && holder !== owner`
abbrev pub other_owner : Option ℕ → Option Owner → Bool
other_owner none holder = false
other_owner (some n) none = true
other_owner (some n) (some unknown) = true
other_owner (some n) (some (named m)) = not (m == n)

module _ {K : Type 0} ⦃e : Eq K⦄ where
  -- `none` is the LOCK_HELD error.
  unfoldable pub acquire : K → Option ℕ → LockTable K → Option (Lock K × LockTable K)
  acquire key owner locks =
      if has locks key
      then none
      else some (record { key = key; owner = owner }, set locks key (or_unknown owner))

  unfoldable pub release : K → Option ℕ → LockTable K → Bool × LockTable K
  release key owner locks =
      if not (has locks key)
      then (false, locks)
      else (if other_owner owner (get locks key) then (false, locks) else (true, delete locks key))

  -- The `release` of an acquired lock.
  abbrev pub release_lock : Lock K → LockTable K → LockTable K
  release_lock l locks = (release l.key l.owner locks).1

  unfoldable pub is_held : K → LockTable K → Bool
  is_held key locks = has locks key

-- `clear`
abbrev pub clear_locks : {K : Type 0} → LockTable K → LockTable K
clear_locks locks = []
