-- ===== src/Tests/Sessions.antt =====
-- A session over the ECDSA aggregation of Tests.Signing.
use hourglass_monorepo.Prelude.{refl, ◌++◌, [], ◌∷◌, map}
use hourglass_monorepo.Text.{codes}
use hourglass_monorepo.Session.{received, context_done, broadcast, ecdsa_task_result_aggregator}
use hourglass_monorepo.Session.Certified.{
  IsSound, IsCertified, none_left, accept, ecdsa_broadcast_certifies, ecdsa_broadcast-IsSound,
}
use hourglass_monorepo.Tests.Signing.{
  backend, alice, bob, answer, fresh, fresh_made, heard, alice-heard, heard_met,
}

ecdsa_broadcast_certifies_example : IsCertified backend (codes "t") (
    broadcast
      (ecdsa_task_result_aggregator backend)
      (codes "t")
      fresh
      (map received (answer alice ∷ []) ++ (received (answer bob) ∷ [])))
ecdsa_broadcast_certifies_example =
    ecdsa_broadcast_certifies backend (codes "t") 5 7 6000 (alice ∷ bob ∷ []) fresh heard
      (codes "t") (answer alice ∷ []) (received (answer bob) ∷ []) fresh_made refl
      (accept heard refl alice-heard none_left) heard_met

ecdsa_broadcast-IsSound_example : IsSound backend (codes "t") (
    broadcast
      (ecdsa_task_result_aggregator backend)
      (codes "t")
      fresh
      (received (answer bob) ∷ received (answer alice) ∷ context_done ∷ []))
ecdsa_broadcast-IsSound_example =
    ecdsa_broadcast-IsSound backend (codes "t") 5 7 6000 (alice ∷ bob ∷ []) fresh (codes "t")
      (received (answer bob) ∷ received (answer alice) ∷ context_done ∷ []) fresh_made refl
