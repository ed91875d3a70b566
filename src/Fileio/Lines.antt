-- ===== src/Fileio/Lines.antt =====
-- The first line of a file.
use telemd.Base.{◌≡◌, refl, none, List, ◌∷◌, Text, Option}
use telemd.Go.Strconv.{Err}
use telemd.Host.{Host, Moment, scanned}
use telemd.Fileio.{read_first_line}

pub read_first_line_scanned :
    (H : Host) (m : Moment) (path text : Text) (rest : List Text) (err : Option Err)
    → H.read_file m path ≡ scanned (text ∷ rest) err
    → read_first_line H m path ≡ (text, none)
unfolding read_first_line
read_first_line_scanned H m path text rest err e = rw e refl
