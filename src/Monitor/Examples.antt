-- ===== src/Monitor/Examples.antt =====
-- A run of apps/q4 in which the consumer waits for data and is handed the lock, and the laws there.
use lab.Prelude.{ℕ, ◌≡◌, refl, ◌++◌, List, [], ◌∷◌, some}
use lab.Queue.Store.{update}
use lab.Buffer.RingLaws.{IsRing}
use lab.Slots.Steps.{digit, put_item}
use lab.Monitor.Steps.{Monitor, take, resume_product, resume_item, turn, run, launched, initial}
use lab.Monitor.Runs.{run-fifo, run-takes}

-- The consumer, process 1, waits for data; the producer, process 0, writes and signals; the consumer has
-- the lock again and looks.
abbrev schedule : List ℕ
schedule = 1 ∷ 1 ∷ 0 ∷ 0 ∷ 0 ∷ 0 ∷ 1 ∷ []

abbrev outcome : Monitor
outcome = run schedule (initial (λ i. 0) 1)

handed_over : outcome.owner ≡ some 1
unfolding run turn initial launched resume_product resume_item put_item update
handed_over = refl

about_to_take : outcome.points 1 ≡ take 0
unfolding run turn initial launched resume_product resume_item put_item update
about_to_take = refl

signaller_waits : outcome.lock_waiting ≡ 0 ∷ []
unfolding run turn initial launched resume_product resume_item put_item update
signaller_waits = refl

run-fifo_example :
    (items : List ℕ) × (outcome.sent ≡ outcome.received ++ items) × IsRing outcome.ring items
run-fifo_example = run-fifo (λ i. 0) 1 schedule

run-takes_example : (rest : List ℕ) × (outcome.sent ≡ outcome.received ++ digit 0 ∷ rest)
run-takes_example = run-takes (λ i. 0) 1 1 0 schedule handed_over about_to_take
