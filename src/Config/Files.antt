-- ===== src/Config/Files.antt =====
-- The file system and the JSON codec, which the program calls and does not implement: a configuration
-- file of a directory, and what the code relies on.
use moonlight_scarlet.Prelude.{
  ℕ, ◌≡◌, refl, true, not, Bool, Option, none, some, if◌then◌else◌, ◌>>=◌, arith, List, [], ◌∷◌,
  ◌++◌, Result, ok, err,
}

-- One file: whether it is there, its bytes (none when it went away), and its writing.
pub record ConfigFile (E W : Type 0) : Type 0 where
  pub try_exists : W → Result E Bool
  pub read : W → Result E (Option (List ℕ))
  pub create_dir_all : W → Result E (Unit {0}) × W
  pub write : List ℕ → W → Result E (Unit {0}) × W

pub record Json (E D : Type 0) : Type 0 where
  pub from_slice : List ℕ → Result E D
  pub to_vec_pretty : D → Result E (List ℕ)

-- A file that was written is there with what was written.
pub record Keeps {E W : Type 0} (file : ConfigFile E W) : Type 0 where
  pub there :
      (bytes : List ℕ) (w : W)
      → (file.write bytes w).0 ≡ ok tt
      → file.try_exists (file.write bytes w).1 ≡ ok true
  pub same :
      (bytes : List ℕ) (w : W)
      → (file.write bytes w).0 ≡ ok tt
      → file.read (file.write bytes w).1 ≡ ok (some bytes)

-- What was printed, with a line feed after it, is read back.
pub record RoundTrips {E D : Type 0} (json : Json E D) : Type 0 where
  pub back :
      (d : D) (bytes : List ℕ)
      → json.to_vec_pretty d ≡ ok bytes
      → json.from_slice (bytes ++ (10 ∷ [])) ≡ ok d

module _ {E W D : Type 0} (file : ConfigFile E W) (json : Json E D) where
  -- `fs::write` of the printed document and a line feed.
  unfoldable pub write_document : Result E (List ℕ) → W → Result E (Unit {0}) × W
  write_document (ok bytes) w = file.write (bytes ++ (10 ∷ [])) w
  write_document (err e) w = (err e, w)

  unfoldable pub after_directory : D → Result E (Unit {0}) × W → Result E (Unit {0}) × W
  unfolding write_document
  after_directory d (ok u, w) = write_document (json.to_vec_pretty d) w
  after_directory d (err e, w) = (err e, w)

  -- The end of both `save_to`s.
  unfoldable pub save_document : D → W → Result E (Unit {0}) × W
  unfolding after_directory
  save_document d w = after_directory d (file.create_dir_all w)

  -- The file's document, or none where there is no file.
  unfoldable pub parse_found : Option (List ℕ) → Result E (Option D)
  parse_found none = ok none
  parse_found (some bytes) = json.from_slice bytes >>= λ d. ok (some d)

  unfoldable pub load_document : W → Result E (Option D)
  unfolding parse_found
  load_document w =
      file.try_exists w >>= λ there. if not there then ok none else file.read w >>= parse_found

  -- What was saved is loaded.
  pub load-save :
      Keeps file
      → RoundTrips json
      → (d : D) (w : W) → (save_document d w).0 ≡ ok tt
      → load_document (save_document d w).1 ≡ ok (some d)
  unfolding save_document load_document
  load-save keeps trips d w h = directory (file.create_dir_all w) h
    where
      printed :
          (r : Result E (List ℕ)) (w' : W)
          → json.to_vec_pretty d ≡ r
          → (write_document r w').0 ≡ ok tt
          → load_document (write_document r w').1 ≡ ok (some d)
      printed (ok bytes) w' e k =
          simp
            (
              keeps.there (bytes ++ (10 ∷ [])) w' k,
              keeps.same (bytes ++ (10 ∷ [])) w' k,
              trips.back d bytes e,
            )
            refl
      printed (err x) w' e k = absurd (ground (arith, k))

      directory :
          (r : Result E (Unit {0}) × W)
          → (after_directory d r).0 ≡ ok tt
          → load_document (after_directory d r).1 ≡ ok (some d)
      directory (ok u, w') k = printed (json.to_vec_pretty d) w' refl k
      directory (err x, w') k = absurd (ground (arith, k))
