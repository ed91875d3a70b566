-- ===== src/Host.antt =====
-- The machine that the program runs on, as the operations of the program meet it: a parameter.
use telemd.Base.{ℕ, Bool, Option, List, Text}
use telemd.Go.Strconv.{Err, WithErr}
use telemd.Go.Time.{Time}

-- When a goroutine asks: each operation of each goroutine has a moment of its own, so that a host
-- may give every question another answer.
pub data Moment : Type 0 where
  start : Moment
  next : Moment → Moment
  child : ℕ → Moment → Moment

pub record FileInfo : Type 0 where
  pub name : Text
  pub is_dir : Bool

-- `os.Open` and a `bufio.Scanner` read to its end: the error of the first, or the lines with the
-- error of the second.
pub data Scan : Type 0 where
  not_opened : Err → Scan
  scanned : List Text → Option Err → Scan

pub record Host : Type 0 where
  -- `os.Hostname`; the text is empty where it fails.
  pub hostname : Moment → WithErr Text
  pub read_file : Moment → Text → Scan
  -- `ioutil.ReadDir`
  pub read_dir : Moment → Text → WithErr (List FileInfo)
  -- The error of `os.Stat`.
  pub stat : Moment → Text → Option Err
  -- `exec.Command("sh", "-c", args).Output()`
  pub output : Moment → Text → WithErr Text
  pub now : Moment → Time
  -- `runtime.GOARCH` and `runtime.NumCPU()`
  pub arch : Text
  pub num_cpu : ℕ
