-- ===== src/Fetcher/Tests.antt =====
-- pkg/fetcher/resource_bytes.go and resource.go: resources at which the theorems apply.
use go_toolkit.Prelude.{◌≡◌, refl, inl, true, none, some, [], ◌∷◌, ◌++◌, Bytes, arith}
use go_toolkit.Prelude.Panic.{done}
use go_toolkit.Fetcher.Resource.{ok, range, code_internal_server_error}
use go_toolkit.Fetcher.Bytes.{BytesResource, read}
use go_toolkit.Fetcher.Transforming.{TransformingResource}
use go_toolkit.Fetcher.Transforming as Transforming
use go_toolkit.Fetcher.Transforming.Transformed.{
  Transforms, transforming_read-range, transforming_stream-fails,
}

abbrev text : Bytes
text = 1 ∷ 2 ∷ 3 ∷ []

abbrev unread : BytesResource
unread = record { loader = some text; bytes = none }

-- doubles its content
abbrev doubled : TransformingResource
doubled = record {
  resource = record { length = ok 3; read = λ start end. ok (range text start end) };
  transform = λ bs. bs ++ bs;
  cache_bytes = true;
  bytes = [];
}

abbrev twice : Bytes
twice = 1 ∷ 2 ∷ 3 ∷ 1 ∷ 2 ∷ 3 ∷ []

doubled-Transforms : Transforms twice doubled
doubled-Transforms = (omega arith, (text, refl, refl), inl refl)

transforming_read-range_example :
    ((Transforming.read doubled 2 9).0 ≡ done (ok (range twice 2 9)))
    × Transforms twice (Transforming.read doubled 2 9).1
transforming_read-range_example =
    transforming_read-range twice doubled 2 9 doubled-Transforms (omega arith)

transforming_stream-fails_example :
    (Transforming.stream doubled 2 4).0
    ≡ done (record { written = range twice 2 4; failure = some code_internal_server_error })
transforming_stream-fails_example =
    transforming_stream-fails twice doubled 2 4 doubled-Transforms (omega arith)
