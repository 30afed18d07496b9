-- ===== src/Server/Cli.antt =====
-- cmd/server/cli.go: the text of a printed line, and the methods of cli. fmt.Sprintf is a parameter, and
-- so is the time of day that time.Now().Format("15:04:05") gives.
use lp.Base.{String, List, ◌≡◌, refl, ◌<>◌, []}
use lp.Logging.{Value}
use lp.Server.State.{
  Server, Line, Prefix, prefix_info, prefix_ok, prefix_fail, prefix_event, prefix_run, prefix_out,
  print,
}

abbrev pub color_reset : String
color_reset = "\u{1b}[0m"

abbrev pub color_gray : String
color_gray = "\u{1b}[90m"

abbrev pub color_red : String
color_red = "\u{1b}[91m"

abbrev pub color_green : String
color_green = "\u{1b}[92m"

abbrev pub color_yellow : String
color_yellow = "\u{1b}[93m"

abbrev pub color_blue : String
color_blue = "\u{1b}[94m"

abbrev pub color_magenta : String
color_magenta = "\u{1b}[95m"

abbrev pub color_cyan : String
color_cyan = "\u{1b}[96m"

abbrev pub color_white : String
color_white = "\u{1b}[97m"

-- prefixInfo, prefixOK, prefixFail, prefixEvent, prefixRun and prefixOut
unfoldable pub prefix_text : Prefix → String
prefix_text prefix_info = color_blue <> ("INFO " <> color_reset)
prefix_text prefix_ok = color_green <> (" OK  " <> color_reset)
prefix_text prefix_fail = color_red <> ("FAIL " <> color_reset)
prefix_text prefix_event = color_magenta <> ("EVNT " <> color_reset)
prefix_text prefix_run = color_cyan <> (" RUN " <> color_reset)
prefix_text prefix_out = color_white <> (" OUT " <> color_reset)

-- What cli.log writes to the standard output for a line
unfoldable pub line_text : (String → List Value → String) → String → Line → String
unfolding prefix_text
line_text sprintf ts line =
    color_gray
    <> ("["
        <> (ts
            <> ("]"
                <> (color_reset
                    <> (" "
                        <> (prefix_text line.prefix
                            <> (" " <> (sprintf line.format line.args <> "\n"))))))))

-- info, ok, fail, event and run
unfoldable pub info : String → List Value → Server → Server
info format args s = print prefix_info format args s

unfoldable pub ok : String → List Value → Server → Server
ok format args s = print prefix_ok format args s

unfoldable pub fail : String → List Value → Server → Server
fail format args s = print prefix_fail format args s

unfoldable pub event : String → List Value → Server → Server
event format args s = print prefix_event format args s

unfoldable pub run : String → List Value → Server → Server
run format args s = print prefix_run format args s

started_line :
    line_text
      (λ format args. format)
      "12:00:00"
      (record { prefix = prefix_info; format = "server started"; args = [] })
    ≡ "\u{1b}[90m[12:00:00]\u{1b}[0m \u{1b}[94mINFO \u{1b}[0m server started\n"
unfolding line_text
started_line = refl
