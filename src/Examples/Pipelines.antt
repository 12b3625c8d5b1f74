-- ===== src/Examples/Pipelines.antt =====
-- The theorems of Pipeline at a pipeline that a user takes a resource from.
use nameko_zh_cn.Base.{ℕ, ◌+◌, ◌≤◌, ◌≡◌, refl, true, List, [], ◌∷◌, length, is_some, if◌then◌else◌}
use nameko_zh_cn.Pipeline.{
  Turn, creates, destroys, gets, gives_back, shuts_down, drains, started, new_pipeline, run,
}
use nameko_zh_cn.Pipeline.Accounted.{count, below}
use nameko_zh_cn.Pipeline.Shutdown.{destroyed_once}
use nameko_zh_cn.Pipeline.Completed.{shutdown_completes}

-- A resource is used and given back, and the thread makes two more.
abbrev use_one : List Turn
use_one = creates ∷ (creates ∷ (gets ∷ (gives_back 0 ∷ (creates ∷ []))))

abbrev whole : List Turn
whole =
    creates
    ∷ (creates
        ∷ (shuts_down
            ∷ (creates
                ∷ (drains ∷ (drains ∷ (drains ∷ (destroys ∷ (destroys ∷ (destroys ∷ [])))))))))

ends : (run whole (started 1)).destroy_dead ≡ true
unfolding run started
ends = refl

destroys_both : (run whole (started 1)).destroyed ≡ 0 ∷ (1 ∷ [])
unfolding run started
destroys_both = refl

destroyed_once_example :
    let q = run whole (started 1) in
    (q.running ≡ true → length q.ready + (if is_some q.made then 1 else 0) ≤ q.size + 1)
    × ((i : ℕ) → count i q.in_use + count i q.destroyed ≤ 1)
    × (q.destroy_dead ≡ true
        → q.in_use ≡ []
        → q.trash ≡ []
        → (i : ℕ) → count i q.destroyed ≡ below i q.created)
unfolding new_pipeline
destroyed_once_example = destroyed_once 1 whole (started 1) refl

shutdown_completes_example :
    let p = run use_one (started 1) in
    (rest : List Turn) × ((run rest p).destroy_dead ≡ true)
    × ((i : ℕ) → count i (run rest p).destroyed ≡ below i (run rest p).created)
unfolding new_pipeline run started
shutdown_completes_example = shutdown_completes 1 use_one (started 1) refl refl refl
