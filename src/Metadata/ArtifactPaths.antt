-- ===== src/Metadata/ArtifactPaths.antt =====
-- The relative paths of metadata/file_marshal_models.py, as `PurePosixPath` reads them, and their
-- order, which is that of Python's strings.
use Prim.Native.Char.{Char, code}
use metrka_core.Prelude.{String, Bool, true, false, ◌&&◌, ◌||◌, not, List, [], ◌∷◌, str_eq}
use metrka_core.Prelude.Tests.{ltb, ◌==◌, if◌then◌else◌}
use metrka_core.Prelude.Text.{is_blank}
use metrka_core.Prelude.Lists.{any}

-- `a <= b` by code points.
unfoldable pub str_leb : String → String → Bool
str_leb String.[] b = true
str_leb (String.◌∷◌ x a) String.[] = false
str_leb (String.◌∷◌ x a) (String.◌∷◌ y b) =
    let rest = str_leb a b in
    if ltb (code x) (code y) then true else if code x == code y then rest else false

-- `"\\" in relative_path`
unfoldable pub has_backslash : String → Bool
has_backslash String.[] = false
has_backslash (String.◌∷◌ c s) = code c == 92 || has_backslash s

-- `path.is_absolute()`: it starts with `/`.
abbrev pub is_absolute : String → Bool
is_absolute String.[] = false
is_absolute (String.◌∷◌ c s) = code c == 47

abbrev pub prepend : Char → List String → List String
prepend c [] = String.◌∷◌ c String.[] ∷ []
prepend c (w ∷ ws) = String.◌∷◌ c w ∷ ws

-- The text between the slashes.
unfoldable pub segments : String → List String
segments String.[] = "" ∷ []
segments (String.◌∷◌ c s) =
    let rest = segments s in if code c == 47 then "" ∷ rest else prepend c rest

-- What `PurePosixPath` keeps of a segment: `path.parts` has no empty one and no `.`.
abbrev pub is_dropped : String → Bool
is_dropped w = str_eq w "" || str_eq w "."

-- The tests of `BronzeArtifactDigest.__post_init__` on the path. The text of a relative path is that
-- of the parsed one exactly if no segment is dropped.
unfoldable pub is_normalized : String → Bool
unfolding has_backslash segments any
is_normalized path =
    not (is_blank path)
    && (not (str_eq path ".")
        && (not (has_backslash path)
            && (not (is_absolute path)
                && (not (any (str_eq "..") (segments path))
                    && not (any is_dropped (segments path))))))
