-- ===== src/Labels/Edge.antt =====
-- The metrics of the edge, by whichever route a request comes.
use axiler_fin.Base.{refl, All-append}
use axiler_fin.Metrics.{AllTyped, IsTyped, options}
use axiler_fin.Edge.Server.Emitted.{Emitted}

pub edge-Typed : (F : Type 0) → Emitted F (AllTyped {F = F}) (AllTyped {F = F})
unfolding options
edge-Typed F = record {
  quiet_next = tt;
  quiet = tt;
  suspicious = λ reason. (refl, tt);
  hit = λ tenant. (refl, tt);
  health = λ x. (refl, tt);
  passed = λ uri tenant x samples h. (refl, All-append IsTyped _ _ h (refl, (refl, tt)));
}
