-- ===== src/Function/Tests.antt =====
-- Runs of internal/function/store.go at small inputs.
use flagbase.Prelude.{ℕ, String, true, ◌≡◌, refl, List, [], ◌∷◌, ◌++◌, Option, none, some}
use flagbase.Text.{codes, split, has_prefix}
use flagbase.Db.{Error, bad_artifact, Session, ok, err, statement, draw}
use flagbase.Db.Ensures.{Ensures}
use flagbase.Ids.{new_id, encode_to_string}
use flagbase.Storage.{
  mkdir_all, create_file, write_file, read_file, is_system_bucket, put_object, get_object,
}
use flagbase.Storage.Paths.{clean}
use flagbase.Tracing.{start_trace, record_span, complete_trace, new_trace_id}
use flagbase.Function.{InvMetrics, Site}
use flagbase.Function.Source.{
  Codec, IsCodec, compress_source, decompress_source, decompress_source-compress_source,
}
use flagbase.Function.Store.{
  is_wasm, artifact_ext, get, insert, update_status, create_version, compile, compiler_for, create,
  upload,
}
use flagbase.Function.Invoke.{
  Runtimes, Call, start_invocation, complete_invocation, invoke_wasm, invoke,
}
use flagbase.Function.Uploading.{Stored, upload-Stored}

-- A codec that leaves texts as they are.
abbrev codec : Codec
codec = record { deflate = λ s. s; inflate = some; encode_base64 = λ b. b; decode_base64 = some }

codec-IsCodec : IsCodec codec
codec-IsCodec = record { inflate_deflate = λ s. refl; decode_encode = λ b. refl }

abbrev describe : Error → String
describe e = "failed"

-- A parser that takes every text.
abbrev parse : List ℕ → Option Error
parse s = none

abbrev base : List ℕ
base = codes "/d"

abbrev site : Site
site = record {
  functions = [];
  function_versions = [];
  function_invocations = [];
  traces = record { traces = []; trace_events = [] };
  storage = record {
    disk = record { files = []; dirs = record { rooted = true; stack = [] } ∷ [] };
    published = none;
  };
}

abbrev session : Session Site
session = record {
  state = site;
  faults = [];
  draws = some (1 ∷ []) ∷ some (2 ∷ []) ∷ some (3 ∷ []) ∷ some (4 ∷ []) ∷ [];
}

abbrev binary : List ℕ
binary = 0 ∷ codes "asm" ++ 7 ∷ []

-- Runtimes that give back what they run.
abbrev runtimes : Runtimes
runtimes = record {
  wasi = λ w f i s. (record { output = w; error = none; peak_memory_bytes = 1; host_calls = 0 }, s);
  wasi_stream =
      λ w f i s. (record { output = w; error = none; peak_memory_bytes = 1; host_calls = 0 }, s);
  js =
      λ f s. (record { output = f.source; error = none; peak_memory_bytes = 0; host_calls = 0 }, s);
}

abbrev call : Call
call = record { now = 9; elapsed_ms = 2; traced = true; trace_id = "t" }

abbrev metadata : String → InvMetrics → List ℕ
metadata id m = []

-- What a run looks into.
running : Unit {0}
unfolding create upload create_version compile compiler_for get insert update_status is_wasm
    artifact_ext compress_source decompress_source invoke invoke_wasm start_invocation
    complete_invocation put_object get_object mkdir_all create_file write_file read_file
    is_system_bucket clean split has_prefix start_trace record_span complete_trace new_trace_id
    statement draw new_id encode_to_string
running = tt

abbrev uploaded : Session Site
uploaded = (upload codec describe parse base 5 "F" "" binary session).1

runs : (invoke codec describe base runtimes metadata call "01" uploaded).0 ≡ ok binary
unfolding running
runs = refl

not_wasm : (upload codec describe parse base 5 "F" "" (1 ∷ []) session).0 ≡ err bad_artifact
unfolding running
not_wasm = refl

second :
    (create_version codec 6 "01" uploaded).0
    ≡ ok (record { id = "03"; function_id = "01"; version = 2; source = []; created_at = 6 })
unfolding running
second = refl

decompress_source-compress_source_example :
    decompress_source codec (compress_source codec (codes "x")) ≡ codes "x"
decompress_source-compress_source_example =
    decompress_source-compress_source codec codec-IsCodec (codes "x")

upload-Stored_example :
    Ensures site
      (upload codec describe parse base 5 "F" "" binary)
      (λ f u. (is_wasm binary ≡ true) × Stored codec describe parse base binary f u)
      (λ _ u. u ≡ site)
upload-Stored_example = upload-Stored codec describe parse base 5 "F" "" binary site
