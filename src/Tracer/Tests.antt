-- ===== src/Tracer/Tests.antt =====
-- tracer.go: a key without a value, and no keys at all.
use cleisthenes.Base.{◌≡◌, refl, [], ◌∷◌}
use cleisthenes.Tracer.{new_mem_cache_tracer, pairs, join, log, trace}

log-runs :
    (trace (log [] (log ("action" ∷ "propose" ∷ "epoch" ∷ []) new_mem_cache_tracer))).printed
    ≡ "action=propose epoch=" ∷ []
unfolding new_mem_cache_tracer pairs join log trace
log-runs = refl
