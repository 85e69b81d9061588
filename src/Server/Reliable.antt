-- ===== src/Server/Reliable.antt =====
-- The listen file on a disk that carries out every write.
use nginx_front_back_end_dem.Prelude.{
  ◌≡◌, ap, ◌∙◌, sym, refl, Bool, true, false, none, some, Text, arith,
}
use nginx_front_back_end_dem.Process.{Sys, tmp_of, write_file_atomic, fill, promote}
use nginx_front_back_end_dem.Process.Atomic.{IsFileSystem}
use nginx_front_back_end_dem.Server.{Options, Server, write_snippet}
use nginx_front_back_end_dem.Server.Snippet.{IsWritten, Wrote, write_snippet-Wrote}

-- The directory may be written to and the disk is not full.
pub record Reliable {W : Type 0} (sys : Sys W) : Type 0 where
  pub opens : (path : Text) (w : W) → (sys.open_trunc path w).0 ≡ true
  pub writes : (path content : Text) (w : W) → (sys.write_flush path content w).0 ≡ true
  pub renames : (path path' : Text) (w : W) → (sys.rename path path' w).0 ≡ none

module _ {W : Type 0} (sys : Sys W) (law : IsFileSystem sys) (reliable : Reliable sys) where
  write_file_atomic-none :
      (path content : Text) (w : W) → (write_file_atomic sys path content w).0 ≡ none
  unfolding write_file_atomic fill promote
  write_file_atomic-none path content w =
      let opened = (sys.open_trunc (tmp_of path) w).1 in
      let written = (sys.write_flush (tmp_of path) content opened).1 in
      ground (
        arith,
        reliable.opens (tmp_of path) w,
        reliable.writes (tmp_of path) content opened,
        reliable.renames (tmp_of path) path written,
      )

  write_snippet-true : (content : Text) (s : Server W) → (write_snippet sys content s).0 ≡ true
  unfolding write_snippet
  write_snippet-true content s =
      ground (arith, write_file_atomic-none s.opts.listen_file content s.machine)

  -- A write of the snippet is carried out.
  pub write_snippet-IsWritten :
      (path : Text) (snippet : Options → Text) (s : Server W)
      → s.opts.listen_file ≡ path
      → ((write_snippet sys (snippet s.opts) s).0 ≡ true)
        × IsWritten sys path snippet (write_snippet sys (snippet s.opts) s).1
  write_snippet-IsWritten path snippet s at =
      by_result (write_snippet sys (snippet s.opts) s) (write_snippet-true _ s)
        (write_snippet-Wrote sys law path (snippet s.opts) s at)
    where
      by_result :
          (r : Bool × Server W)
          → r.0 ≡ true
          → Wrote sys path (snippet s.opts) s r
          → (r.0 ≡ true) × IsWritten sys path snippet r.1
      by_result (true, s') is (same, content) = (
        refl,
        (
          ap (λ (o : Options). o.listen_file) same ∙ at,
          content ∙ ap (λ o. some (snippet o)) (sym same),
        ),
      )
      by_result (false, s') is wrote = cc
