-- ===== src/Config/Distinct.antt =====
-- The certificate and the key of a server are two files.
use Prim.Native.Char.{Char}
use Prim.Native.String.{String, [], ◌∷◌}
use iam2kube.Shared.{
  ◌≡◌, ◌≢◌, refl, sym, ap, ◌∙◌, ◌<>◌, Bool, true, false, List, [], ◌∷◌, ◌++◌, arith, if◌then◌else◌,
  str_eq_of_ne,
}
use iam2kube.Shared.Text.{char_eq, split}
use iam2kube.Shared.Text.Split.{Free, split-append_last, split_of_Free}
use iam2kube.Config.{Config}
use iam2kube.Config.Paths.{
  clean_part, clean_parts, path_of, finish_path, is_rooted, clean, join_path, cert_filename,
  key_filename, cert_path, key_path,
}
use text.Mathlib.TextEquality.{eq_iff}
use text.Mathlib.TextLemmas.{
  nil-append, cons-append, append_assoc, append_cancel_left, cons-ne-nil,
  append-ne-nil_of_right_ne-nil,
}

-- A name that is kept as it is, as the last part of a path.
record IsPlainName (first : Char) (rest : String) : Type 0 where
  free : Free "/" (first ∷ rest)
  kept :
      (rooted : Bool) (parts : List String)
      → clean_parts rooted parts ((first ∷ rest) ∷ []) ≡ (first ∷ rest) ∷ parts

clean_parts-append :
    (rooted : Bool) (kept parts more : List String)
    → clean_parts rooted kept (parts ++ more)
      ≡ clean_parts rooted (clean_parts rooted kept parts) more
unfolding clean_parts
clean_parts-append rooted kept [] more = refl
clean_parts-append rooted kept (part ∷ parts) more =
    clean_parts-append rooted (clean_part rooted kept part) parts more

-- What stands before the last part.
before : List String → String
before [] = ""
before (part ∷ parts) = path_of (part ∷ parts) <> "/"

directory_text : Bool → List String → String
directory_text rooted parts = if rooted then "/" <> before parts else before parts

path_of-before :
    (name : String) (parts : List String) → path_of (name ∷ parts) ≡ before parts <> name
unfolding before
path_of-before name [] = sym (nil-append name)
path_of-before name (part ∷ parts) = sym (append_assoc (path_of (part ∷ parts)) "/" name)

append-not_empty :
    (start : String) (first : Char) (rest : String)
    → finish_path false (start <> (first ∷ rest)) ≡ start <> (first ∷ rest)
append-not_empty start first rest =
    let apart =
      str_eq_of_ne (start <> (first ∷ rest)) ""
        (append-ne-nil_of_right_ne-nil start (cons-ne-nil first rest)) in
    rw apart refl

finish_path-append :
    (rooted : Bool) (parts : List String) (first : Char) (rest : String)
    → finish_path rooted (before parts <> (first ∷ rest))
      ≡ directory_text rooted parts <> (first ∷ rest)
unfolding directory_text
finish_path-append true parts first rest = sym (append_assoc "/" (before parts) (first ∷ rest))
finish_path-append false parts first rest = append-not_empty (before parts) first rest

module _ (first : Char) (rest : String) (plain : IsPlainName first rest) where
  clean-last :
      (path : String) (parts : List String)
      → split path "/" ≡ parts ++ ((first ∷ rest) ∷ [])
      → clean path
        ≡ directory_text (is_rooted path) (clean_parts (is_rooted path) [] parts) <> (first ∷ rest)
  unfolding clean
  clean-last path parts h =
      rw
        (
          h,
          clean_parts-append (is_rooted path) [] parts ((first ∷ rest) ∷ []),
          plain.kept,
          path_of-before,
        )
        (finish_path-append (is_rooted path) (clean_parts (is_rooted path) [] parts) first rest)

-- The directory as it stands before the name of a file in it.
directory : String → String
unfolding directory_text before
directory [] = ""
directory (c ∷ s) =
    directory_text (char_eq c "/") (clean_parts (char_eq c "/") [] (split (c ∷ s) "/"))

module _ (first : Char) (rest : String) (plain : IsPlainName first rest) where
  join_path-name : (dir : String) → join_path dir (first ∷ rest) ≡ directory dir <> (first ∷ rest)
  unfolding join_path directory directory_text before
  join_path-name [] =
      clean-last first rest plain (first ∷ rest) [] (split_of_Free (first ∷ rest) "/" plain.free)
      ∙ rw (plain.free.0) refl
  join_path-name (c ∷ s) =
      let name : String = first ∷ rest in
      let longer : (c ∷ s) <> ("/" <> name) ≡ c ∷ (s <> ("/" <> name)) =
        cons-append c s ("/" <> name) in
      let slash : "/" <> name ≡ "/" ∷ name =
        cons-append "/" "" name ∙ ap (λ t. "/" ∷ t) (nil-append name) in
      rw (str_eq_of_ne (c ∷ s) "" (cons-ne-nil c s)) (
        clean-last first rest plain ((c ∷ s) <> ("/" <> name)) (split (c ∷ s) "/")
          (ap (λ t. split ((c ∷ s) <> t) "/") slash ∙ split-append_last (c ∷ s) name "/" plain.free)
        ∙ ap
            (λ t.
              directory_text (is_rooted t) (clean_parts (is_rooted t) [] (split (c ∷ s) "/"))
              <> name)
            longer)

IsPlainName-cert : IsPlainName "c" "ert.pem"
unfolding clean_parts
IsPlainName-cert = record {
  free = (refl, (refl, (refl, (refl, (refl, (refl, (refl, (refl, tt))))))));
  kept = λ rooted parts. refl;
}

IsPlainName-key : IsPlainName "k" "ey.pem"
unfolding clean_parts
IsPlainName-key = record {
  free = (refl, (refl, (refl, (refl, (refl, (refl, (refl, tt)))))));
  kept = λ rooted parts. refl;
}

-- The certificate and the key of a server are two files, whatever its state directory is.
pub cert_path-key_path : (c : Config) → cert_path c ≢ key_path c
unfolding cert_path key_path
cert_path-key_path c same =
    let cert = join_path-name "c" "ert.pem" IsPlainName-cert c.state_dir in
    let key = join_path-name "k" "ey.pem" IsPlainName-key c.state_dir in
    let names : cert_filename ≡ key_filename =
      append_cancel_left (directory c.state_dir) cert_filename key_filename
        (sym cert ∙ same ∙ key) in
    absurd (ground (arith, names, eq_iff cert_filename key_filename))
