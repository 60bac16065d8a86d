-- ===== src/Http/Reply/Files.antt =====
-- `serve_static`: a file that can be mapped is sent whole behind its header.
use twebs.Prelude.{
  ℕ, ◌+◌, ◌≤◌, ◌<◌, ◌≡◌, Bytes, ◌++◌, length, take, arith, none, some, ℤ, pos, take-all, pos_part,
}
use twebs.Outcome.{done, exited}
use twebs.Kernel.{Kernel, Ghost, IsReliable}
use twebs.Http.{Host, World, ◌>>=◌, write_all, maxline}
use twebs.Http.Sending.{Sent, patience_of, write_two, sprintf_fits}
use twebs.Http.Reply.{static_header, serve_static}

module _ {S : Type 0} (k : Kernel S) (fuel : ℕ) (h : Host) (filename : Bytes) (size : ℤ)
    (w : World S) (fits : length (static_header filename size) < maxline) where
  -- A file that cannot be opened and mapped ends the process with status 0 and no reply at all.
  pub serve_static_unmapped :
      h.open_mapped filename size ≡ none → serve_static k fuel h filename size w ≡ (exited 0, w)
  unfolding serve_static
  serve_static_unmapped e = ground (arith, sprintf_fits (static_header filename size) w fits)

  serve_static_writes :
      (bs : Bytes)
      → h.open_mapped filename size ≡ some bs
      → serve_static k fuel h filename size w
        ≡ (write_all k fuel (static_header filename size) >>= λ _.
              write_all k fuel (take (pos_part size) bs))
            w
  unfolding serve_static
  serve_static_writes bs e = ground (arith, sprintf_fits (static_header filename size) w fits)

module _ {S : Type 0} {k : Kernel S} {g : Ghost S} (law : IsReliable k g) where
  -- `serve_static` returns, having sent the header with the file's size and type and then the whole
  -- file, if the file can be mapped.
  pub serve_static_lem :
      (fuel : ℕ) (h : Host) (filename bs : Bytes) (w : World S)
      → h.open_mapped filename (pos (length bs)) ≡ some bs
      → length (static_header filename (pos (length bs))) < maxline
      → maxline + length bs + patience_of g w ≤ fuel
      → let r = serve_static k fuel h filename (pos (length bs)) w in
        (r.0 ≡ done tt) × Sent g (static_header filename (pos (length bs)) ++ bs) w r.1
  serve_static_lem fuel h filename bs w e fits hf =
      let size = pos (length bs) in
      let two = write_two law fuel (static_header filename size) bs w (omega arith) (omega arith) in
      rw
        (
          serve_static_writes k fuel h filename size w fits bs e,
          take-all (length bs) bs (omega arith),
        )
        two
