-- ===== src/Tests/Parsing.antt =====
-- The parser of a request's head, server/modules/Parser.
use zhttpd.Base.{true, false, Bytes, codes, List, [], ◌∷◌, ◌++◌, some, ◌≡◌, refl, arith, eq_bytes}
use zhttpd.Api.{Buffer, HttpMethod}
use zhttpd.Headers.{get_header, lookup, insert}
use zhttpd.Tasks.{monitor, finish_task, register, add_end_task, as_list, task_buffers}
use zhttpd.Tasks.Work.{need_read}
use zhttpd.Request.{
  Request, release, raise_end, next_module, set_response_header, get_request_header,
}
use zhttpd.Chain.{next_in}
use zhttpd.Parser.Head.{at_start, get_method, parse_bytes, parse_buffers}
use zhttpd.Parser.Lines.{Head, IsHead, render, crlf, set_headers}
use zhttpd.Parser.Ends.{scan-append, scan-ended, scan-render}
use zhttpd.Parser.Buffers.{parse_buffers-contents, parse_buffers-render}
use zhttpd.Parser.Overflow.{destroy-process_data_overflow}
use zhttpd.Parser.{
  Parser, ended, scan, release_all, destroy, process_data, continue_head, parse_request,
}
use zhttpd.Tests.Requests.{reading}

-- GET /a HTTP/1.1, with one header.
abbrev request : Head
request = record {
  method = codes "GET";
  path = codes "/a";
  version = codes "HTTP/1.1";
  headers = (codes "Host", codes "b") ∷ [];
}

request-IsHead : IsHead request
request-IsHead = record {
  method_word = omega arith;
  path_word = omega arith;
  first_line = omega arith;
  other_lines = omega arith;
}

abbrev cut : List Buffer
cut =
    record { id = 1; bytes = codes "GET /a HTTP/1.1\r" }
    ∷ record { id = 2; bytes = codes "\nHost: b\r\n\r\n" }
    ∷ []

request_method : get_method (codes "GET") ≡ HttpMethod.get
unfolding get_method eq_bytes
request_method = refl

scan-append_test : scan 0 (codes "a\r\n\r" ++ codes "\nb") ≡ ended (codes "a\r\n\r\n") (codes "b")
unfolding scan
scan-append_test = scan-append 0 (codes "a\r\n\r") (codes "\nb")

scan-ended_test :
    (codes "a\r\n\r\nb" ≡ codes "a\r\n\r\n" ++ codes "b")
    × ((pre : Bytes) × (codes "a\r\n\r\n" ≡ pre ++ crlf (crlf [])))
unfolding scan
scan-ended_test = scan-ended (codes "a\r\n\r\nb") refl

scan-render_example : scan 0 (render request ++ codes "x") ≡ ended (render request) (codes "x")
scan-render_example = scan-render request (codes "x") request-IsHead

parse_buffers-contents_test :
    parse_buffers at_start cut reading
    ≡ release_all cut
        (parse_bytes (codes "GET /a HTTP/1.1\r\nHost: b\r\n\r\n") (at_start, reading)).1
parse_buffers-contents_test = parse_buffers-contents at_start cut reading

parse_buffers-render_example :
    parse_buffers at_start cut reading
    ≡ release_all cut (
        set_headers request.headers
          (record reading { method = HttpMethod.get; query = codes "/a" }))
unfolding get_method eq_bytes
parse_buffers-render_example = parse_buffers-render request cut reading request-IsHead refl

-- A head that is one byte below the limit, and two more bytes.
abbrev long : Parser
long = record {
  separator = 0;
  completed = false;
  content_length = 0;
  received_length = 0;
  header_length = 9999;
  buffers = [];
}

abbrev more : Buffer
more = record { id = 9; bytes = codes "ab" }

abbrev after_long : Parser
after_long = record long { buffers = more ∷ []; header_length = 10001 }

abbrev overflowed : Request
overflowed = record reading {
  request_headers = (codes "Content-Length", []) ∷ [];
  response_headers = (codes "Server", codes "zhttp/0.1") ∷ [];
  tasks = record reading.tasks {
    wait_read = true;
    registered = true;
    pool_calls = monitor ∷ [];
    released = more ∷ [];
    end_task = some (finish_task 3);
  };
}

process_data-long :
    process_data (codes "zhttp/0.1") long more reading ≡ some (after_long, overflowed)
unfolding process_data scan continue_head need_read register raise_end next_module next_in
    add_end_task as_list task_buffers parse_request parse_buffers release set_response_header
    get_request_header get_header lookup insert
process_data-long = refl

destroy-process_data_overflow_example :
    (overflowed.tasks.released ≡ reading.tasks.released ++ ([] ++ more ∷ []))
    × ((destroy after_long overflowed).tasks.released
        ≡ overflowed.tasks.released ++ ([] ++ more ∷ []))
unfolding scan
destroy-process_data_overflow_example =
    destroy-process_data_overflow (codes "zhttp/0.1") long after_long more 0 reading overflowed refl
      refl (omega arith) refl process_data-long
