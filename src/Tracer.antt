-- ===== src/Tracer.antt =====
-- tracer.go: the log that the instances keep in memory.
mod Tests
use Prim.Native.String.{String, ◌++◌ as text_append}
use cleisthenes.Base.{List, [], ◌∷◌, ◌++◌, ◌%◌, ◌==◌, if◌then◌else◌, length}

-- `MemCacheTracer`; `printed` logs what it hands to the logger.
pub record MemCacheTracer : Type 0 where
  pub trace_list : List String
  pub printed : List String

-- `NewMemCacheTracer`
unfoldable pub new_mem_cache_tracer : MemCacheTracer
new_mem_cache_tracer = record { trace_list = []; printed = [] }

-- The loop of `Log` over the keys and values, of which there is an even number
unfoldable pub pairs : List String → List String
pairs [] = []
pairs (key ∷ []) = []
pairs (key ∷ value ∷ keyvals) = text_append key (text_append "=" value) ∷ pairs keyvals

-- `strings.Join` with a blank
unfoldable pub join : List String → String
join [] = ""
join (text ∷ []) = text
join (text ∷ next ∷ texts) = text_append text (text_append " " (join (next ∷ texts)))

-- `Log`
unfoldable pub log : List String → MemCacheTracer → MemCacheTracer
unfolding pairs join
log [] t = t
log (key ∷ keyvals) t =
    let given = key ∷ keyvals in
    let even = if length given % 2 == 1 then given ++ "" ∷ [] else given in
    record t { trace_list = t.trace_list ++ join (pairs even) ∷ [] }

-- `Trace`
unfoldable pub trace : MemCacheTracer → MemCacheTracer
trace t = record t { printed = t.printed ++ t.trace_list }
