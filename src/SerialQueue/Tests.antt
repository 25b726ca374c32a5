-- ===== src/SerialQueue/Tests.antt =====
-- The serializing queue at concrete runs: a send that fails does not hold up the next one.
use gemba_blockchain.Base.{List, [], arith, false, get_elem?, refl, some, ◌∷◌, ◌≡◌, ◌⊎◌}
use gemba_blockchain.SerialQueue.{
  Status, queued, running, settled, Event, submits, starts, settles, serialize, run, start, settle,
}
use gemba_blockchain.SerialQueue.Laws.{
  IsSerial, serialize_one_at_a_time, serialize_progress, next_position,
}

-- The second send is called early, the first one fails, then the second one starts.
abbrev two_sends : List Event
two_sends = submits ∷ submits ∷ starts 1 ∷ starts 0 ∷ starts 1 ∷ settles 0 false ∷ starts 1 ∷ []

two_sends-run : run [] two_sends ≡ settled false ∷ running ∷ []
unfolding run serialize start settle
two_sends-run = refl

serialize_one_at_a_time_example : IsSerial (run [] two_sends)
serialize_one_at_a_time_example = serialize_one_at_a_time two_sends

abbrev one_failed : List Status
one_failed = settled false ∷ queued ∷ []

serialize_progress_example :
    (get_elem? one_failed (next_position one_failed) ≡ some running)
    ⊎ (get_elem?
          (serialize one_failed (starts (next_position one_failed)))
          (next_position one_failed)
        ≡ some running)
unfolding next_position
serialize_progress_example = serialize_progress one_failed tt (omega arith)
