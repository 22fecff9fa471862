-- ===== src/Rtk/Registry.antt =====
-- internal/rtk/filters/registry.go: the names of the filters. A filter is known by its name here.
use cpa_plugin_token_saver.Common.{List, Option, [], if◌then◌else◌, none, some, ◌∷◌}
use cpa_plugin_token_saver.Text.{Bytes, bytes_eq, codes}

abbrev pub registry : List Bytes
registry =
    codes "git-diff"
    ∷ codes "git-status"
    ∷ codes "git-log"
    ∷ codes "grep"
    ∷ codes "find"
    ∷ codes "dedup-log"
    ∷ codes "ls"
    ∷ codes "tree"
    ∷ codes "smart-truncate"
    ∷ codes "read-numbered"
    ∷ codes "search-list"
    ∷ codes "build-output"
    ∷ []

abbrev unaliased : Bytes → Bytes
unaliased name =
    if bytes_eq name (codes "rg")
    then codes "grep"
    else (if bytes_eq name (codes "fd") then codes "find" else name)

unfoldable pub find_filter : List Bytes → Bytes → Option Bytes
find_filter [] name = none
find_filter (f ∷ fs) name =
    let rest = find_filter fs name in if bytes_eq f name then some f else rest

-- The empty Filter is none.
unfoldable pub resolve : Bytes → Option Bytes
resolve name = find_filter registry (unaliased name)
