-- ===== src/Session/Tests.antt =====
-- The channel registry (session/channelRegistry.go) at concrete inputs.
use dst_go.Base.{◌+◌, String, [], ◌∷◌, ◌++◌, some, done, str_eq, if◌then◌else◌, ◌≡◌}
use dst_go.Session.ChRegistry.{new_ch_registry, put, get, count}
use dst_go.Session.ChRegistry.Laws.{new_ch_registry-IsIndexed, get-put}

-- A channel that is its own ID.
abbrev self_named : String → String
self_named c = c

get-put_example :
    (get (put self_named new_ch_registry "ab") "cd"
      ≡ (if str_eq "ab" "cd" then done (some "ab") else get new_ch_registry "cd"))
    × (count (put self_named new_ch_registry "ab") ≡ count {C = String} new_ch_registry + 1)
    × ((put self_named new_ch_registry "ab").chs ≡ new_ch_registry.chs ++ "ab" ∷ [])
get-put_example =
    get-put self_named new_ch_registry "ab" "cd" (new_ch_registry-IsIndexed self_named)
