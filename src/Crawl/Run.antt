-- ===== src/Crawl/Run.antt =====
-- The driver and the extraction workers side by side: one event after the other.
pub mod Queued
use dext.Base.{ℕ, suc, zero, ◌+◌, ◌-◌, Option, none, some, List, [], ◌∷◌, ◌++◌}
use dext.Crawl.Types.{Database}
use dext.Crawl.Store.{DatabaseError, RowIds}
use dext.Crawl.Store.Reset.{reconcile}
use dext.Crawl.Driver.{
  Outside, Engine, ExtractTask, Pass, handled, raised, finished, sleeps, driver_pass,
}
use dext.Crawl.People.{People}
use dext.Crawl.Extract.{Storage, Extractor, process_extract_task}

-- The engine, the tables of people, the tasks that extraction workers have taken, and the node whose
-- handling has raised: the exception ends the driver, and the workers go on with what is queued.
pub record CrawlState : Type 0 where
  pub engine : Engine
  pub people : People
  pub taken : List ExtractTask
  pub crashed : Option ℕ

-- A pass of the driver; a worker takes the next task; a worker is done with one of the taken tasks, all
-- of whose commands run at that point. Decision workers do not run.
pub data Event : Type 0 where
  drive : ℕ → Event
  take_task : Event
  work_off : ℕ → ℕ → Event

-- After a resume: no node is in progress yet.
unfoldable pub resumed : CrawlState → CrawlState
unfolding reconcile
resumed c = record c { engine = record c.engine { db = reconcile c.engine.db }; crashed = none }

abbrev pub driven : Pass → CrawlState → CrawlState
driven (handled node e) c = record c { engine = e }
driven (raised node error e) c = record c { engine = e; crashed = some node.id }
driven (finished e) c = record c { engine = e }
driven (sleeps e) c = record c { engine = e }

-- A pass counts if the driver still runs.
abbrev pub drive_on : Option ℕ → Pass → CrawlState → CrawlState
drive_on (some node_id) pass c = c
drive_on none pass c = driven pass c

-- `queue.get()` of an extraction worker
abbrev pub with_task : List ExtractTask → CrawlState → CrawlState
with_task [] c = c
with_task (t ∷ rest) c = record c {
  engine = record c.engine {
    extract_queue = rest;
    extractions_in_flight = c.engine.extractions_in_flight + 1;
  };
  taken = c.taken ++ t ∷ [];
}

abbrev more :
    ExtractTask → Option (ExtractTask × List ExtractTask) → Option (ExtractTask × List ExtractTask)
more t none = none
more t (some (chosen, others)) = some (chosen, t ∷ others)

-- A task of the list, and the others.
unfoldable pub pick : ℕ → List ExtractTask → Option (ExtractTask × List ExtractTask)
pick n [] = none
pick zero (t ∷ rest) = some (t, rest)
pick (suc n) (t ∷ rest) = more t (pick n rest)

module _ (out : Outside) (new_id : RowIds) (extractor : Extractor) where
  abbrev pub worked : Option (ExtractTask × List ExtractTask) → ℕ → CrawlState → CrawlState
  worked none now c = c
  worked (some (t, others)) now c =
      let (after_task, error) =
        process_extract_task new_id extractor t now
          (record { db = c.engine.db; people = c.people }) in
      record {
        engine = record c.engine {
          db = after_task.db;
          extractions_in_flight = c.engine.extractions_in_flight - 1;
        };
        people = after_task.people;
        taken = others;
        crashed = c.crashed;
      }

  unfoldable pub next : Event → CrawlState → CrawlState
  unfolding driver_pass pick process_extract_task
  next (drive now) c = drive_on c.crashed (driver_pass out now c.engine) c
  next take_task c = with_task c.engine.extract_queue c
  next (work_off n now) c = worked (pick n c.taken) now c

  unfoldable pub run : List Event → CrawlState → CrawlState
  unfolding next
  run [] c = c
  run (event ∷ events) c = run events (next event c)
