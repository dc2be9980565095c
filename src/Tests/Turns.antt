-- ===== src/Tests/Turns.antt =====
-- A run of uploads and sweeps of basispoints/image_upload.go: an object is put while a sweep takes the
-- job of another, whose deletion fails.
use cliproxyapi_plugin_basis.Common.{refl, some, [], ◌∷◌}
use cliproxyapi_plugin_basis.Common.Assoc.{insert}
use cliproxyapi_plugin_basis.Common.Text.{lit}
use cliproxyapi_plugin_basis.Images.{DeleteJob, remember, live_images, pending_jobs, due_jobs}
use cliproxyapi_plugin_basis.Images.Interleaved.{
  Shared, puts, remembers, takes_due, deletes, Turns, at_start, then_turn, at_first,
}
use cliproxyapi_plugin_basis.Images.Interleaved.Tracked.{IsKept, Turns-at_first-IsKept}

abbrev first_job : DeleteJob
first_job = record { key = lit "k"; at_time = 5; tries = 0 }

abbrev last_state : Shared
last_state = record {
  images = record {
    cache = [];
    jobs = record { key = lit "k"; at_time = 30000000009; tries = 1 } ∷ [];
  };
  uploading = lit "j" ∷ [];
  taken = [];
  placed = lit "j" ∷ lit "k" ∷ [];
  dropped = [];
}

crossing : Turns at_first last_state
unfolding remember live_images pending_jobs due_jobs insert
crossing =
    then_turn
      (then_turn
        (then_turn
          (then_turn (then_turn at_start (puts (lit "k")))
            (remembers (lit "h") (lit "https://x/k") (lit "k") 5 [] [] refl))
          (takes_due 9))
        (puts (lit "j")))
      (deletes 9 first_job (some (lit "down")) [] [] refl)

Turns-at_first-IsKept_example : IsKept last_state
Turns-at_first-IsKept_example = Turns-at_first-IsKept last_state crossing
