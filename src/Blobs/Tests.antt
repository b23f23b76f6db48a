-- ===== src/Blobs/Tests.antt =====
-- A store of two blobs, and the theorems on it.
use fortemi_react.Common.{◌≡◌, refl, false, none, some, [], ◌∷◌}
use fortemi_react.Common.Dict
use fortemi_react.Blobs.Memory.{Entries, read, put, reconcile, gc}
use fortemi_react.Blobs.Sweep.{gc-reconcile}
use fortemi_react.Blobs.InMemory.{read-put}
use fortemi_react.Blobs.Tally.{tally, tally-injective}

abbrev two_blobs : Entries
unfolding put
two_blobs = (put tally 20 (2 ∷ []) (put tally 10 (1 ∷ []) []).0).0

-- The first blob is not live and old enough.
gc-reconcile_example :
    read (tally (1 ∷ [])) (gc 50 5 (reconcile (tally (2 ∷ []) ∷ []) false two_blobs).0).0 ≡ none
unfolding put Dict.set Dict.get
gc-reconcile_example =
    gc-reconcile (tally (2 ∷ []) ∷ []) 50 5 (tally (1 ∷ [])) two_blobs (refl, (refl, tt))

read-put_example :
    read (put tally 30 (3 ∷ []) two_blobs).1 (put tally 30 (3 ∷ []) two_blobs).0 ≡ some (3 ∷ [])
unfolding put Dict.set Dict.get
read-put_example =
    read-put tally tally-injective 30 (3 ∷ []) two_blobs ((refl, (refl, tt)), (refl, (refl, tt)))
