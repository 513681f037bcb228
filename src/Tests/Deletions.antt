-- ===== src/Tests/Deletions.antt =====
-- The answer of a worker that deletes a document.
use html_inbox.Common.{◌≡◌, arith, some, none, ok, js}
use html_inbox.Json.{stringify, byte_length, quote, decimal}
use html_inbox.Deletion.{
  Response, Thrown, caused, no_cause, of_response, parse_deletion_response, plain, refused,
  serialize_deletion_error, serialized, slice, thrown,
}
use html_inbox.Deletion.Answered.{
  IsAnswerAbout, parse_deletion_response-of_response, received_response,
}
use html_inbox.Tests.Data.{host}

abbrev access_denied : Thrown
access_denied = thrown plain (js "denied") (js "Error") (some (js "EACCES")) no_cause

abbrev refusal : Response
refusal = refused (thrown plain (js "rmdir") (js "SyntaxError") none (caused access_denied))

parse_deletion_response-of_response_example :
    parse_deletion_response (js "document") (of_response refusal) ≡ ok (received_response refusal)
unfolding IsAnswerAbout stringify byte_length of_response serialize_deletion_error serialized slice
    quote decimal
parse_deletion_response-of_response_example =
    parse_deletion_response-of_response (js "document") refusal (tt, (tt, tt)) (omega arith)
