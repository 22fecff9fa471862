-- ===== src/Config/Store.antt =====
-- internal/config/config.go: the store of the published configuration. `Digest`, a SHA-256 of the
-- settings' JSON, is an argument.
use cpa_plugin_token_saver.Common.{
  Bool, Bool-cases, List, [], false, if◌then◌else◌, inl, inr, refl, true, ◌∷◌, ◌≡◌,
}
use cpa_plugin_token_saver.Config.{Config, Libraries, defaults, err, ok}
use cpa_plugin_token_saver.Text.{Bytes, is_blank}
use cpa_plugin_token_saver.Config.Fields.{parse}
use cpa_plugin_token_saver.Config.Validity.{IsValid, Result-cases, defaults-IsValid, parse-IsValid}

pub record StoreState : Type 0 where
  pub config : Config
  pub valid : Bool
  pub digest : Bytes

module _ (l : Libraries) (digest_of : Config → Bytes) where
  abbrev pub new_store_state : Config → Bool → StoreState
  new_store_state c valid = record { config = c; valid = valid; digest = digest_of c }

  abbrev pub publish : StoreState → Config → StoreState
  publish s c = new_store_state c true

  -- `NewStore`: the store, and whether it reports no error.
  unfoldable pub new_store : Bytes → StoreState × Bool
  new_store raw =
      let safe = new_store_state defaults true in
      if is_blank raw then (safe, true) else elim (parse l raw) [
        | err e ↦ (new_store_state defaults false, false)
        | ok c ↦ (publish safe c, true)
      ]

  -- `Reload`: the store, and whether it reports no error.
  unfoldable pub reload : StoreState → Bytes → StoreState × Bool
  reload s raw = elim (parse l raw) [ err e ↦ (s, false) | ok c ↦ (publish s c, true) ]

  abbrev pub snapshot : StoreState → Config
  snapshot s = s.config

  -- `StatusSnapshot`, without the raw YAML.
  unfoldable pub status_snapshot : StoreState → Config × Bool × Bytes
  status_snapshot s = (record s.config { raw_yaml = [] }, s.valid, s.digest)

  -- The store after a sequence of reloads.
  unfoldable pub reload_all : StoreState → List Bytes → StoreState
  reload_all s [] = s
  reload_all s (raw ∷ raws) = reload_all (reload s raw).0 raws

  -- The last of the texts that parses, in the configuration it stands for.
  unfoldable pub last_good : Config → List Bytes → Config
  last_good c [] = c
  last_good c (raw ∷ raws) = elim (parse l raw) [
    | err e ↦ last_good c raws
    | ok d ↦ last_good d raws
  ]

  -- The published state: a valid configuration, with its own digest.
  pub record IsPublished (s : StoreState) : Type 0 where
    pub checked : IsValid l s.config
    pub own_digest : s.digest ≡ digest_of s.config

  pub new_store-IsPublished : (raw : Bytes) → IsPublished (new_store raw).0
  unfolding new_store
  new_store-IsPublished raw = elim (Bool-cases (is_blank raw)) [
    | inl nothing ↦
        rw (nothing, new_store) (record { checked = defaults-IsValid l; own_digest = refl })
    | inr filled ↦ elim (Result-cases (parse l raw)) [
      | inl (e, bad) ↦
          rw (filled, bad, new_store) (record { checked = defaults-IsValid l; own_digest = refl })
      | inr (c, good) ↦
          rw (filled, good, new_store)
            (record { checked = parse-IsValid l raw c good; own_digest = refl })
    ]
  ]

  pub reload-IsPublished :
      (s : StoreState) (raw : Bytes) → IsPublished s → IsPublished (reload s raw).0
  unfolding reload
  reload-IsPublished s raw p = elim (Result-cases (parse l raw)) [
    | inl (e, bad) ↦ rw (bad, reload) p
    | inr (c, good) ↦
        rw (good, reload) (record { checked = parse-IsValid l raw c good; own_digest = refl })
  ]

  -- After any reloads of a published store, its configuration is valid, and its digest is the
  -- configuration's own.
  pub reload_all-IsPublished :
      (raws : List Bytes) (s : StoreState) → IsPublished s → IsPublished (reload_all s raws)
  unfolding reload_all
  reload_all-IsPublished [] s p = p
  reload_all-IsPublished (raw ∷ raws) s p =
      reload_all-IsPublished raws (reload s raw).0 (reload-IsPublished s raw p)

  -- After any reloads, the snapshot is the configuration of the last text that parses, and the
  -- first one if none does.
  pub reload_all-last_good :
      (raws : List Bytes) (s : StoreState)
      → (snapshot (reload_all s raws)) ≡ last_good s.config raws
  unfolding reload_all reload last_good
  reload_all-last_good [] s = refl
  reload_all-last_good (raw ∷ raws) s = elim (Result-cases (parse l raw)) [
    | inl (e, bad) ↦ rw (bad, reload, last_good) (reload_all-last_good raws s)
    | inr (c, good) ↦ rw (good, reload, last_good) (reload_all-last_good raws (publish s c))
  ]
