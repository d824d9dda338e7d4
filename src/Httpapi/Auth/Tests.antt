-- ===== src/Httpapi/Auth/Tests.antt =====
-- Authentication at a concrete token; the digest is the text itself.
use rag_ai_system.Prelude.{◌≡◌, refl, true, [], ◌++◌, arith}
use rag_ai_system.Text.{codes, text_eq}
use rag_ai_system.Httpapi.Auth.{
  equal_fold, bearer, authorized, authorized_lem, Bears, authorized-Bears,
}

bearer_test : (bearer (codes "bearer abc") ≡ codes "abc") × (bearer (codes "Basic abc") ≡ [])
unfolding bearer
bearer_test = (refl, refl)

authorized_lem_example :
    authorized (λ s. s) (codes "k1") (codes "/health") (codes "bEARER " ++ codes "k1") ≡ true
unfolding equal_fold
authorized_lem_example =
    authorized_lem (λ s. s) (codes "k1") (codes "/health") (codes "bEARER ") (omega arith) refl

authorized-Bears_example : Bears (λ s. s) (codes "k1") (codes "bearer k1")
unfolding authorized bearer text_eq equal_fold
authorized-Bears_example =
    authorized-Bears (λ s. s) (codes "k1") (codes "/ask") (codes "bearer k1") (omega arith)
      (λ h. cc) refl refl
