-- ===== src/Tests/Whole.antt =====
-- A daemon on port 80, two clients that it serves, and one that it turns away.
use twebs.Prelude.{◌≡◌, refl, true, false, [], ◌∷◌, codes, arith}
use twebs.Outcome.{done}
use twebs.CString.{atoi}
use twebs.Kernel.Script.{script, script_ghost, script-IsReliable}
use twebs.Config.File.{render}
use twebs.Startup.{port_opt, daemon_opt, startup}
use twebs.Startup.Choices.{startup_lem}
use twebs.Server.{child}
use twebs.Server.Accepting.{let_in, turned_away, nobody, after_refusal}
use twebs.Server.Sessions.{AllAnswered}
use twebs.Server.Whole.{main, main-Promised}
use twebs.Tests.{items, items-IsFile}
use twebs.Tests.Parts.{stranger}
use twebs.Tests.Starts.{machine, settings}
use twebs.Tests.Sessions.{
  reader, poster, reader-Checked, poster-Checked, stranger-Checked, reader-Asks, poster-Asks,
}

settled :
    startup 20_000 (render items) [] (codes "/srv") false (daemon_opt ∷ port_opt (codes "80") ∷ [])
    ≡ done settings
unfolding atoi
settled =
    startup_lem 20_000 items [] (codes "/srv") false (daemon_opt ∷ port_opt (codes "80") ∷ [])
      (codes "80") (codes "a.log") (codes "no") (codes "no") items-IsFile (omega arith) refl refl
      refl refl refl (omega arith)

main-Promised_example :
    let served = child script 20_000 reader.arrival ∷ child script 20_000 poster.arrival ∷ [] in
    (main script 20_000 (machine true) (reader.arrival ∷ stranger ∷ poster.arrival ∷ [])
      ≡ done
          (record { held = after_refusal script-IsReliable 20_000 stranger ∷ []; served = served }))
    × AllAnswered script_ghost (reader ∷ poster ∷ []) served
main-Promised_example =
    main-Promised script-IsReliable 20_000 (machine true) settings settled 4 (reader ∷ poster ∷ [])
      (reader.arrival ∷ stranger ∷ poster.arrival ∷ []) (stranger ∷ []) refl
      (let_in reader-Checked (turned_away stranger-Checked (let_in poster-Checked nobody)))
      (reader-Asks, (poster-Asks, tt))
